-- ===== src/Consumer/Flow/Formed.antt =====
-- The messages that the goroutines of cmd/consumer/main.go make of the events.
use tetragon_kafka_adapter.Prelude.{
  ℤ, ◌≤◌, ◌≡◌, refl, ◌∙◌, sym, ap, ◌⊎◌, inl, inr, Bool, false, [], Option, none, some, Text, str,
  length, arith, Option-cases, IsHexDigit, hex-IsHexDigit,
}
use mathlib.Core.Path.{subst}
use tetragon_kafka_adapter.Prelude.Every.{All}
use tetragon_kafka_adapter.Channel.{Channel}
use tetragon_kafka_adapter.Config.{StreamConfig, PartitionKeyConfig, SchemaConfig}
use tetragon_kafka_adapter.Tetragon.{TetragonApi}
use tetragon_kafka_adapter.Router.{Router, detect_event_type, route}
use tetragon_kafka_adapter.Queue.{Queue}
use tetragon_kafka_adapter.Schema.{
  EventSchema, generate_trace_id, length-generate_trace_id, new_event_schema, set_timestamp,
}
use tetragon_kafka_adapter.Normalize.{normalize}
use tetragon_kafka_adapter.Kafka.PartitionKey.{generate_dedup_key}
use tetragon_kafka_adapter.Kafka.PartitionKey.Shape.{length-generate_dedup_key}
use tetragon_kafka_adapter.Kafka.Writer.{Message, Writer}
use tetragon_kafka_adapter.Kafka.Worker.Batches.{handled}
use tetragon_kafka_adapter.Kafka.Pool.{Pool, start_pool}
use tetragon_kafka_adapter.Kafka.Pool.Contents.{Reach-Holds}
use tetragon_kafka_adapter.Pipeline.{Codecs, serialize, message_of, write_value, write_event}
use tetragon_kafka_adapter.Consumer.Flow.{
  AreRandom, Flow, start_flow, with_writer, read_into, processed, written_out, reads, looks,
  finds_cancelled, ends_processing, ends_writing, counts_in, counts_out, reopens, cancels,
  receives_event, processes, pops, writes_event, works, FlowReach, stays, steps,
}
use tetragon_kafka_adapter.Consumer.Flow.Pools.{same_writer, write-accepted, FlowReach-pool}

module _ (api : TetragonApi) where
  open api use {Event}

  module _ (codecs : Codecs Event) (keys : PartitionKeyConfig) (router : Router) where
    -- The message fits the event that it carries.
    pub record IsFormed (m : Message Event) : Type 0 where
      pub event : Event
      pub carried : m.event ≡ some event
      pub typed : m.event_type ≡ detect_event_type api event
      pub routed : m.topic ≡ route api router event
      pub keyed : m.key ≡ generate_dedup_key api codecs.sha256 event keys
      pub short_key : length m.key ≤ 100
      pub content :
          (m.content_type ≡ str "application/json") ⊎ (m.content_type ≡ str "application/protobuf")
      pub traced : length m.trace_id ≡ 32
      pub in_hex : All IsHexDigit m.trace_id

    serialize-content :
        (cfg : SchemaConfig) (e : Event) (schema : EventSchema)
        → ((serialize api codecs cfg e schema).1 ≡ str "application/json")
          ⊎ ((serialize api codecs cfg e schema).1 ≡ str "application/protobuf")
    unfolding serialize
    serialize-content cfg e schema = ground arith

    normalize-trace_id :
        (now : ℤ) (random : Text) (e : Event) (schema : EventSchema)
        → normalize api codecs.marshal_json codecs.rfc3339 now random e ≡ some schema
        → schema.trace_id ≡ generate_trace_id random
    unfolding normalize new_event_schema set_timestamp
    normalize-trace_id now random e schema h = ground arith

    message_of-IsFormed :
        (e : Event) (schema : EventSchema) (value content : Text) (random : Text)
        → schema.trace_id ≡ generate_trace_id random
        → AreRandom random
        → (content ≡ str "application/json") ⊎ (content ≡ str "application/protobuf")
        → IsFormed (message_of api codecs keys router e schema value content)
    unfolding message_of
    message_of-IsFormed e schema value content random t r c = record {
      event = e;
      carried = refl;
      typed = refl;
      routed = refl;
      keyed = refl;
      short_key = length-generate_dedup_key api codecs.sha256 e keys;
      content = c;
      traced = ap length t ∙ length-generate_trace_id random r.0;
      in_hex =
          subst (All IsHexDigit) (sym t) (unfold generate_trace_id in hex-IsHexDigit random r.1);
    }

    write_value-IsFormed :
        (p : Pool Event) (e : Event) (schema : EventSchema) (v : Option Text × Text) (random : Text)
        → schema.trace_id ≡ generate_trace_id random
        → AreRandom random
        → (v.1 ≡ str "application/json") ⊎ (v.1 ≡ str "application/protobuf")
        → p.writer.message_ch.closed ≡ false
        → All IsFormed p.accepted
        → All IsFormed
            (with_writer p
              (write_value api codecs keys router (some p.writer) e schema v).1).accepted
    unfolding write_value
    write_value-IsFormed p e schema (none, t) random h r c o all =
        subst (λ x. All IsFormed x.accepted) (sym (same_writer p)) all
    write_value-IsFormed p e schema (some value, t) random h r c o all =
        write-accepted IsFormed p _ o all (message_of-IsFormed e schema value t random h r c)

    write_event-IsFormed :
        (cfg : SchemaConfig) (p : Pool Event) (e : Event) (now : ℤ) (random : Text)
        → AreRandom random
        → p.writer.message_ch.closed ≡ false
        → All IsFormed p.accepted
        → All IsFormed
            (with_writer p
              (write_event api codecs keys cfg router now random (some p.writer) e).1).accepted
    unfolding write_event
    write_event-IsFormed cfg p e now random r o all =
        elim (Option-cases (normalize api codecs.marshal_json codecs.rfc3339 now random e)) [
          | inl failed ↦
              rw (failed, write_event)
                (subst (λ x. All IsFormed x.accepted) (sym (same_writer p)) all)
          | inr (schema, ok) ↦
              rw (ok, write_event)
                (write_value-IsFormed p e schema (serialize api codecs cfg e schema) random
                  (normalize-trace_id now random e schema ok) r (serialize-content cfg e schema) o
                  all)
        ]

  module _ (codecs : Codecs Event) (stream : StreamConfig) (keys : PartitionKeyConfig)
      (schema : SchemaConfig) (router : Router) (max : ℤ) where
    accepted-IsFormed :
        (s t : Flow Event)
        → All (IsFormed codecs keys router) s.pool.accepted
        → FlowReach api codecs stream keys schema router max s t
        → All (IsFormed codecs keys router) t.pool.accepted
    unfolding read_into processed written_out
    accepted-IsFormed s t a stays = a
    accepted-IsFormed s t a (steps r (reads u n g m k room done)) = accepted-IsFormed s u a r
    accepted-IsFormed s t a (steps r (looks u g m k)) = accepted-IsFormed s u a r
    accepted-IsFormed s t a (steps r (finds_cancelled u n g m k h)) = accepted-IsFormed s u a r
    accepted-IsFormed s t a (steps r (reopens u b g k)) = accepted-IsFormed s u a r
    accepted-IsFormed s t a (steps r (ends_processing u g h d k)) = accepted-IsFormed s u a r
    accepted-IsFormed s t a (steps r (ends_writing u x n g h d k)) = accepted-IsFormed s u a r
    accepted-IsFormed s t a (steps r (counts_in u n h)) = accepted-IsFormed s u a r
    accepted-IsFormed s t a (steps r (counts_out u n h)) = accepted-IsFormed s u a r
    accepted-IsFormed s t a (steps r (cancels u)) = accepted-IsFormed s u a r
    accepted-IsFormed s t a (steps r (receives_event u e rest g h d q)) = accepted-IsFormed s u a r
    accepted-IsFormed s t a (steps r (processes u e draw pick h b)) = accepted-IsFormed s u a r
    accepted-IsFormed s t a (steps r (pops u e q pick g h d k)) = accepted-IsFormed s u a r
    accepted-IsFormed s t a (steps r (writes_event u e now random h o b)) =
        write_event-IsFormed codecs keys router schema u.pool e now random b o
          (accepted-IsFormed s u a r)
    accepted-IsFormed s t a (steps r (works u pl x same)) =
        subst (All (IsFormed codecs keys router)) (sym same) (accepted-IsFormed s u a r)

    -- From a start with an empty writer, whatever the goroutines do and in any order, every message
    -- that waits in the writer's channel, and every one that a worker gathers or has flushed, fits
    -- the event that it carries: type, topic and key are those of the event, the key has at most 100
    -- bytes, the content type is one of the two of the code, and the trace identifier is 32
    -- hexadecimal digits.
    pub FlowReach-IsFormed :
        (opens : Bool) (ch : Channel Event) (q : Queue Event) (w : Writer Event) (t : Flow Event)
        → w.message_ch.items ≡ []
        → FlowReach api codecs stream keys schema router max (start_flow opens ch q w) t
        → All (IsFormed codecs keys router) t.pool.writer.message_ch.items
          × All (λ v. All (IsFormed codecs keys router) (handled v)) t.pool.workers
    unfolding start_flow start_pool
    FlowReach-IsFormed opens ch q w t h r =
        let held =
          Reach-Holds (IsFormed codecs keys router) w t.pool h
            (FlowReach-pool api codecs stream keys schema router max (start_flow opens ch q w) t r)
            (accepted-IsFormed (start_flow opens ch q w) t tt r) in
        (held.waiting, held.gathered)
