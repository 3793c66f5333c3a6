-- ===== src/Pipeline/Accounts.antt =====
-- The metrics of processEvents and writeToKafka of cmd/consumer/main.go.
use tetragon_kafka_adapter.Prelude.{
  ℕ, suc, ℤ, ◌≤◌, ◌≡◌, refl, ◌≢◌, ◌⊎◌, inl, inr, Bool, true, false, List, [], ◌∷◌, ◌++◌, Option,
  none, some, Text, str, Float64, length, Option-cases, arith,
}
use tetragon_kafka_adapter.Config.{StreamConfig, PartitionKeyConfig, SchemaConfig}
use tetragon_kafka_adapter.Metrics.{Metric, events_in, events_out, normalize_errors, sampled, drops}
use tetragon_kafka_adapter.Tetragon.{TetragonApi}
use tetragon_kafka_adapter.Router.{Router, detect_event_type}
use tetragon_kafka_adapter.Queue.{Queue, returns, fails, queue_full, push}
use tetragon_kafka_adapter.Queue.Sampler.{should_sample}
use tetragon_kafka_adapter.Schema.{EventSchema}
use tetragon_kafka_adapter.Normalize.{normalize}
use tetragon_kafka_adapter.Kafka.Writer.{Writer, panics, write}
use tetragon_kafka_adapter.Pipeline.{
  Codecs, not_sampled, pushed, wrote, process_event, serialize, write_value, write_event,
}

-- The metric that counts the events coming in: events_in_total.
unfoldable pub arrival_count : List Metric → ℕ
arrival_count [] = 0
arrival_count (events_in type ∷ ms) = suc (arrival_count ms)
arrival_count (m ∷ ms) = arrival_count ms

-- The metrics that say what became of an event: events_out_total and normalize_errors_total.
unfoldable pub outcome_count : List Metric → ℕ
outcome_count [] = 0
outcome_count (events_out topic status ∷ ms) = suc (outcome_count ms)
outcome_count (normalize_errors type ∷ ms) = suc (outcome_count ms)
outcome_count (m ∷ ms) = outcome_count ms

module _ (api : TetragonApi) where
  open api use {Event}

  write_value-counted :
      (codecs : Codecs Event) (keys : PartitionKeyConfig) (r : Router) (w : Option (Writer Event))
      (e : Event) (schema : EventSchema) (v : Option Text × Text)
      → (write_value api codecs keys r w e schema v).0 ≢ wrote panics
      → outcome_count (write_value api codecs keys r w e schema v).2 ≡ 1
  unfolding write_value write outcome_count
  write_value-counted codecs keys r w e schema (none, t) h = refl
  write_value-counted codecs keys r none e schema (some v, t) h = refl
  write_value-counted codecs keys r (some w) e schema (some v, t) h = ground arith

  -- A turn of writeToKafka counts its event exactly once among events_out_total and
  -- normalize_errors_total, on every path: normalization or serialization error, no writer, full
  -- writer, success. The one exception is a write to a writer that is closed, which panics.
  pub write_event-counted :
      (codecs : Codecs Event) (keys : PartitionKeyConfig) (cfg : SchemaConfig) (r : Router)
      (now : ℤ) (random : Text) (w : Option (Writer Event)) (e : Event)
      → (write_event api codecs keys cfg r now random w e).0 ≢ wrote panics
      → outcome_count (write_event api codecs keys cfg r now random w e).2 ≡ 1
  unfolding write_event outcome_count
  write_event-counted codecs keys cfg r now random w e =
      elim (Option-cases (normalize api codecs.marshal_json codecs.rfc3339 now random e)) [
        | inl failed ↦ rw (failed, write_event) (λ h. refl)
        | inr (schema, ok) ↦
            rw (ok, write_event)
              (write_value-counted codecs keys r w e schema (serialize api codecs cfg e schema))
      ]

  -- In drop mode a turn of processEvents ends in one of three ways: the event is not sampled, and
  -- nothing changes or is counted; it is put at the end of the queue; or the queue is full and it is
  -- dropped. The last two count it in sampled_total and events_in_total, and a drop in drops_total.
  process_event_drop_mode :
      (cfg : StreamConfig) (draw : Float64) (done pick : Bool) (q : Queue Event) (e : Event)
      → q.drop_if_queue_full ≡ true
      → let t = detect_event_type api e in
        let r = process_event api cfg draw done pick q e in
        ((r ≡ (not_sampled, q, [])) × ((should_sample api cfg draw e).0 ≡ false))
        ⊎ ((r.0 ≡ pushed (returns tt))
            × (r.1.ch.items ≡ q.ch.items ++ e ∷ [])
            × (r.2 ≡ sampled t ∷ events_in t ∷ []))
        ⊎ ((r ≡ (
          pushed (fails queue_full),
          q,
          sampled t ∷ drops (str "queue_full") ∷ events_in t ∷ [],
        ))
            × (q.ch.capacity ≤ length q.ch.items))
  unfolding process_event should_sample push
  process_event_drop_mode cfg draw done pick q e h = ground arith
