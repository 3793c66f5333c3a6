-- ===== src/Pipeline/Delivery.antt =====
-- From an event to the message in the writer: writeToKafka of cmd/consumer/main.go.
use tetragon_kafka_adapter.Prelude.{
  ℕ, ℤ, ◌<◌, ◌≡◌, ◌≢◌, false, [], ◌∷◌, ◌++◌, some, Text, str, length, arith, text_eq_iff,
}
use tetragon_kafka_adapter.Config.{PartitionKeyConfig, SchemaConfig}
use tetragon_kafka_adapter.Metrics.{events_out}
use tetragon_kafka_adapter.Tetragon.{TetragonApi}
use tetragon_kafka_adapter.Router.{Router, detect_event_type, route}
use tetragon_kafka_adapter.Schema.{generate_trace_id, new_event_schema, set_timestamp}
use tetragon_kafka_adapter.Normalize.{normalize}
use tetragon_kafka_adapter.Kafka.PartitionKey.{generate_dedup_key}
use tetragon_kafka_adapter.Kafka.Writer.{Message, Writer, written, write}
use tetragon_kafka_adapter.Pipeline.{Codecs, wrote, serialize, message_of, write_value, write_event}

module _ (api : TetragonApi) where
  open api use {Event}

  -- In JSON format an event that can be marshalled, written while the writer is open and has room,
  -- is put at the end of the writer's queue as its own JSON, under the topic of the router, the key
  -- made from the configured fields, its type, and a trace id of the random bytes; it counts as one
  -- success for its topic.
  pub write_event-delivers :
      (codecs : Codecs Event) (keys : PartitionKeyConfig) (cfg : SchemaConfig) (r : Router)
      (now : ℤ) (random : Text) (w : Writer Event) (e : Event) (c : ℕ) (json : Text)
      → cfg.format ≢ str "protobuf"
      → codecs.marshal_json e ≡ some (c ∷ json)
      → w.message_ch.closed ≡ false
      → length w.message_ch.items < w.message_ch.capacity
      → let m : Message Event = record {
        event = some e;
        event_type = detect_event_type api e;
        content_type = str "application/json";
        topic = route api r e;
        key = generate_dedup_key api codecs.sha256 e keys;
        value = c ∷ json;
        trace_id = generate_trace_id random;
      } in
        write_event api codecs keys cfg r now random (some w) e ≡ (
          wrote written,
          some (record w {
            message_ch = record (w.message_ch) { items = w.message_ch.items ++ m ∷ [] };
          }),
          events_out (route api r e) (str "success") ∷ [],
        )
  unfolding write_event write_value write serialize message_of normalize new_event_schema
      set_timestamp
  write_event-delivers codecs keys cfg r now random w e c json f j open_ room =
      ground (arith, text_eq_iff cfg.format (str "protobuf"))
