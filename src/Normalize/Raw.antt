-- ===== src/Normalize/Raw.antt =====
-- The normalized event of internal/normalize/normalizer.go against the original.
use tetragon_kafka_adapter.Prelude.{
  ℤ, pos, ◌<ℤ◌, ◌≡◌, refl, Option-cases, inl, inr, ◌⊎◌, ◌≤ℤ◌, ◌≢◌, ◌↔◌, false, Option, none, some,
  Text, str, [], length, arith,
}
use tetragon_kafka_adapter.Tetragon.{TetragonApi}
use tetragon_kafka_adapter.Schema.{EventSchema, new_event_schema, set_timestamp, generate_trace_id}
use tetragon_kafka_adapter.Router
use tetragon_kafka_adapter.Normalize.{detect_event_type, get_event_node, normalize}

-- The time stamp for an event with that time, or none.
abbrev pub Stamped : (rfc3339 : ℤ → Text) → ℤ → Option ℤ → Text → Type 0
Stamped rfc3339 now none stamp = stamp ≡ rfc3339 now
Stamped rfc3339 now (some t) stamp =
    ((pos 0 <ℤ t) × (stamp ≡ rfc3339 t)) ⊎ ((t ≤ℤ pos 0) × (stamp ≡ rfc3339 now))

module _ (api : TetragonApi) where
  open api use {
    Event, get_process_exec, get_process_exit, get_process_kprobe, get_process_tracepoint, has_test,
    get_time,
  }

  -- The normalizer's event type differs from the router's exactly where the router says "test".
  detect_event_type-router :
      (e : Event)
      → (detect_event_type api e ≢ Router.detect_event_type api e)
        ↔ (Router.detect_event_type api e ≡ str "test")
  unfolding detect_event_type Router.detect_event_type
  detect_event_type-router e = ground arith

  normalize-Stamped :
      (marshal : Event → Option Text) (rfc3339 : ℤ → Text) (now : ℤ) (random : Text) (e : Event)
      (s : EventSchema) (time : Option ℤ)
      → get_time e ≡ time
      → normalize api marshal rfc3339 now random e ≡ some s
      → Stamped rfc3339 now time s.timestamp
  unfolding normalize new_event_schema set_timestamp get_event_node
  normalize-Stamped marshal rfc3339 now random e s none h ok = ground arith
  normalize-Stamped marshal rfc3339 now random e s (some t) h ok = ground arith

  -- Normalize fails exactly if the event cannot be marshalled. Otherwise the result carries those
  -- bytes unchanged with their length, the node name that the router uses, a trace id of the random
  -- bytes and no extracted field; its timestamp is the event's own if that is after the epoch, and
  -- the time of the call if it is not or the event has none.
  normalize-raw :
      (marshal : Event → Option Text) (rfc3339 : ℤ → Text) (now : ℤ) (random : Text) (e : Event)
      → ((marshal e ≡ none) × (normalize api marshal rfc3339 now random e ≡ none))
        ⊎ ((s : EventSchema) × (normalize api marshal rfc3339 now random e ≡ some s)
            × (marshal e ≡ some s.raw)
            × (s.node ≡ Router.get_event_node api e)
            × (s.trace_id ≡ generate_trace_id random)
            × (s.raw_meta
                ≡ some (record {
                  format = str "json_map";
                  size_bytes = length s.raw;
                  hash = [];
                  redacted = false;
                }))
            × (s.k8s ≡ none)
            × (s.process ≡ none)
            × (s.network ≡ none)
            × Stamped rfc3339 now (get_time e) s.timestamp)
  unfolding normalize new_event_schema set_timestamp get_event_node Router.get_event_node
  normalize-raw marshal rfc3339 now random e =
      elim (Option-cases (normalize api marshal rfc3339 now random e)) [
        | inl failed ↦ inl (ground arith, failed)
        | inr (s, ok) ↦ inr (
          s,
          ok,
          ground arith,
          ground arith,
          ground arith,
          ground arith,
          ground arith,
          ground arith,
          ground arith,
          normalize-Stamped marshal rfc3339 now random e s (get_time e) refl ok,
        )
      ]
