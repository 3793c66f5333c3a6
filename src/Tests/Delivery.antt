-- ===== src/Tests/Delivery.antt =====
-- Messages from the consumer to the broker: writing, batches, flushes, dead letters.
use tetragon_kafka_adapter.Prelude.{
  ℕ, ◌+◌, ◌≤◌, ◌≡◌, refl, ◌≢◌, ◌⊎◌, Bool, true, false, List, [], ◌∷◌, ◌++◌, some, str, one_of,
  text_eq, pos, ◌<ℤ◌, length, arith,
}
use tetragon_kafka_adapter.Config.Default.{default_config}
use tetragon_kafka_adapter.Metrics.{events_out}
use tetragon_kafka_adapter.Router.{detect_event_type, route}
use tetragon_kafka_adapter.Schema.{generate_trace_id}
use tetragon_kafka_adapter.Kafka.PartitionKey.{generate_dedup_key}
use tetragon_kafka_adapter.Kafka.Writer.{Message, written}
use tetragon_kafka_adapter.Kafka.Worker.{
  WorkerEvent, receives, flush_tick, channel_closed, start, worker_run,
}
use tetragon_kafka_adapter.Kafka.Worker.Batches.{concat, received, AllSizes, worker_run-start}
use tetragon_kafka_adapter.Kafka.Flush.{
  dlq_cancelled, message_key, producer_message, flush_batch, write_to_dlq,
}
use tetragon_kafka_adapter.Kafka.Flush.Loss.{repeats, flush_batch-cut}
use tetragon_kafka_adapter.Kafka.Flush.Dlq.{write_to_dlq_cancelled}
use tetragon_kafka_adapter.Pipeline.{wrote, write_event}
use tetragon_kafka_adapter.Pipeline.Delivery.{write_event-delivers}
use tetragon_kafka_adapter.Tests.Samples.{
  sample_api, SampleEvent, exec_event, sample_sha256, sample_codecs, sample_router, sample_random,
  sample_message, sample_writer,
}

abbrev five_events : List (WorkerEvent ℕ)
five_events = receives 1 ∷ receives 2 ∷ receives 3 ∷ flush_tick ∷ channel_closed ∷ []

worker_run-start_example :
    let w = worker_run (pos 2) start five_events in
    (concat w.flushed ++ w.batch ≡ received (pos 2) start five_events)
    × AllSizes (pos 2) w.flushed
    × (pos (length w.batch) <ℤ pos 2)
    × ((w.running ≡ true) ⊎ (concat w.flushed ≡ received (pos 2) start five_events))
worker_run-start_example = worker_run-start (pos 2) five_events (omega arith)

abbrev repeated_batch : List (Message SampleEvent)
repeated_batch = sample_message (str "a") ∷ sample_message (str "a") ∷ sample_message (str "b") ∷ []

abbrev never_twice : ℕ → ℕ → Bool
never_twice i j = false

flush_batch-cut_example :
    let f =
      (flush_batch sample_api 2 never_twice never_twice (pos 5) sample_router repeated_batch).0 in
    (f.produced
      ≡ producer_message sample_api (pos 5) (sample_message (str "a"))
        ∷ producer_message sample_api (pos 5) (sample_message (str "a"))
        ∷ [])
    × (f.to_dlq ≡ sample_message (str "b") ∷ [])
    × (1 ≤ 2)
    × (length f.produced + length f.to_dlq + 1 ≡ 4)
unfolding repeats one_of message_key text_eq
flush_batch-cut_example =
    flush_batch-cut sample_api (pos 5) 2 never_twice never_twice sample_router repeated_batch
      (omega arith)

abbrev never : ℕ → Bool
never i = false

abbrev always : ℕ → Bool
always i = true

write_to_dlq_cancelled_example :
    write_to_dlq sample_api never never
      (pos 5)
      sample_router
      (sample_message (str "a"))
      (str "context cancelled")
    ≡ record { outcome = dlq_cancelled 1; produced = []; waited = []; metrics = [] }
write_to_dlq_cancelled_example =
    write_to_dlq_cancelled sample_api (pos 5) sample_router never never (sample_message (str "a"))
      (str "context cancelled") refl

json_is_not_protobuf : default_config.schema.format ≢ str "protobuf"
json_is_not_protobuf = λ e. cc

exec_delivered :
    let m : Message SampleEvent = record {
      event = some exec_event;
      event_type = detect_event_type sample_api exec_event;
      content_type = str "application/json";
      topic = route sample_api sample_router exec_event;
      key =
          generate_dedup_key sample_api sample_sha256 exec_event
            default_config.routing.partition_key;
      value = str "{}";
      trace_id = generate_trace_id sample_random;
    } in
    write_event sample_api sample_codecs default_config.routing.partition_key default_config.schema
      sample_router
      (pos 5)
      sample_random
      (some sample_writer)
      exec_event
    ≡ (
      wrote written,
      some (record sample_writer {
        message_ch = record { capacity = 2; items = m ∷ []; closed = false };
      }),
      events_out (route sample_api sample_router exec_event) (str "success") ∷ [],
    )
exec_delivered =
    write_event-delivers sample_api sample_codecs default_config.routing.partition_key
      default_config.schema sample_router (pos 5) sample_random sample_writer exec_event b'{'
      (str "}") json_is_not_protobuf refl refl (omega arith)
