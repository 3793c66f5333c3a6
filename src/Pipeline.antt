-- ===== src/Pipeline.antt =====
-- processEvents and writeToKafka of cmd/consumer/main.go: one turn of each loop. Logs, latencies and the data-transform log are left out.
pub mod Accounts
pub mod Delivery
pub mod Transform
pub mod Loops
pub mod Passing
pub mod EndToEnd
use tetragon_kafka_adapter.Prelude.{
  ℕ, suc, ℤ, Bool, true, false, List, [], ◌∷◌, ◌++◌, Option, none, some, Text, str, is_empty,
  text_eq, Float64, if◌then◌else◌,
}
use tetragon_kafka_adapter.Config.{StreamConfig, PartitionKeyConfig, SchemaConfig}
use tetragon_kafka_adapter.Metrics.{Metric, events_in, events_out, normalize_errors}
use tetragon_kafka_adapter.Tetragon.{TetragonApi}
use tetragon_kafka_adapter.Router.{Router, detect_event_type, route}
use tetragon_kafka_adapter.Queue.{Queue, Outcome, returns, fails, blocks, push, pop}
use tetragon_kafka_adapter.Queue.Sampler.{should_sample}
use tetragon_kafka_adapter.Schema.{EventSchema}
use tetragon_kafka_adapter.Normalize.{normalize}
use tetragon_kafka_adapter.Kafka.Writer.{
  Message, Writer, WriteResult, written, queue_full, panics, write,
}
use tetragon_kafka_adapter.Kafka.PartitionKey.{generate_dedup_key}

-- The functions of other libraries that writeToKafka calls on an event: protojson's and proto's
-- Marshal, json.Marshal of a schema, the clock's format, and the digits of a SHA-256 digest.
pub record Codecs (Event : Type 0) : Type 0 where
  pub marshal_json : Event → Option Text
  pub marshal_proto : Event → Option Text
  pub to_json : EventSchema → Option Text
  pub rfc3339 : ℤ → Text
  pub sha256 : Text → Text

pub data Processed : Type 0 where
  not_sampled : Processed
  pushed : Outcome (Unit {0}) → Processed

-- What becomes of an event in a turn of writeToKafka.
pub data Handled : Type 0 where
  normalize_failed serialize_failed no_writer : Handled
  wrote : WriteResult → Handled

module _ (api : TetragonApi) where
  open api use {Event}

  -- EventsInTotal is counted when Push has returned.
  abbrev counted_in : Outcome (Unit {0}) → Text → List Metric
  counted_in (returns r) t = events_in t ∷ []
  counted_in (fails x) t = events_in t ∷ []
  counted_in blocks t = []

  -- A turn of processEvents at a received event.
  unfoldable pub process_event :
      StreamConfig
      → (draw : Float64) (done pick : Bool) → Queue Event
      → Event
      → Processed × Queue Event × List Metric
  process_event cfg draw done pick q e =
      let (sampled, ms) = should_sample api cfg draw e in
      let (r, q', ms') = push q done pick e in
      if sampled
      then (pushed r, q', ms ++ (ms' ++ counted_in r (detect_event_type api e)))
      else (not_sampled, q, ms)

  -- The bytes for Kafka and their content type; `none` is a serialization error.
  unfoldable pub serialize : Codecs Event → SchemaConfig → Event → EventSchema → Option Text × Text
  serialize codecs cfg e schema =
      if text_eq cfg.format (str "protobuf")
      then (codecs.marshal_proto e, str "application/protobuf")
      else if is_empty schema.raw
      then (codecs.to_json schema, str "application/json")
      else (some schema.raw, str "application/json")

  unfoldable pub message_of :
      Codecs Event
      → PartitionKeyConfig
      → Router
      → Event
      → EventSchema
      → (value content_type : Text) → Message Event
  message_of codecs keys r e schema value content_type = record {
    event = some e;
    event_type = detect_event_type api e;
    content_type = content_type;
    topic = route api r e;
    key = generate_dedup_key api codecs.sha256 e keys;
    value = value;
    trace_id = schema.trace_id;
  }

  abbrev status_of : WriteResult → Text → List Metric
  status_of written topic = events_out topic (str "success") ∷ []
  status_of queue_full topic = events_out topic (str "failed") ∷ []
  status_of panics topic = []

  abbrev sent :
      Text
      → WriteResult × Writer Event × List Metric
      → Handled × Option (Writer Event) × List Metric
  sent topic (r, w, ms) = (wrote r, some w, ms ++ status_of r topic)

  -- From the serialized value on.
  unfoldable pub write_value :
      Codecs Event
      → PartitionKeyConfig
      → Router
      → Option (Writer Event)
      → Event
      → EventSchema
      → Option Text × Text
      → Handled × Option (Writer Event) × List Metric
  write_value codecs keys r w e schema (none, content_type) =
      (serialize_failed, w, normalize_errors schema.type ∷ [])
  write_value codecs keys r none e schema (some value, content_type) =
      (no_writer, none, events_out (route api r e) (str "writer_not_initialized") ∷ [])
  write_value codecs keys r (some w) e schema (some value, content_type) =
      sent (route api r e) (write w (message_of codecs keys r e schema value content_type))

  -- A turn of writeToKafka at a popped event.
  unfoldable pub write_event :
      Codecs Event
      → PartitionKeyConfig
      → SchemaConfig
      → Router
      → (now : ℤ) (random : Text) → Option (Writer Event)
      → Event
      → Handled × Option (Writer Event) × List Metric
  write_event codecs keys cfg r now random w e =
      elim (normalize api codecs.marshal_json codecs.rfc3339 now random e) [
        | none ↦ (normalize_failed, w, normalize_errors (detect_event_type api e) ∷ [])
        | some schema ↦ write_value codecs keys r w e schema (serialize codecs cfg e schema)
      ]
