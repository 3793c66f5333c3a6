-- ===== src/Tests/Passage.antt =====
-- Two events from their arrival to the Kafka client.
use tetragon_kafka_adapter.Prelude.{
  ℕ, ℤ, pos, ◌≡◌, ◌≢◌, refl, Bool, true, false, List, [], ◌∷◌, map, some, Text, str, text_eq, one_f,
  leb_f, arith,
}
use tetragon_kafka_adapter.Config.Default.{default_config}
use tetragon_kafka_adapter.Queue.{Queue, push, pop}
use tetragon_kafka_adapter.Queue.Sampler.{should_sample}
use tetragon_kafka_adapter.Kafka.Writer.{Message, write}
use tetragon_kafka_adapter.Kafka.Worker.{
  WorkerEvent, receives, flush_tick, channel_closed, start, worker_step, worker_run,
}
use tetragon_kafka_adapter.Kafka.Worker.Batches.{received}
use tetragon_kafka_adapter.Normalize.{normalize}
use tetragon_kafka_adapter.Schema.{new_event_schema, set_timestamp}
use tetragon_kafka_adapter.Pipeline.{process_event, write_event, write_value, serialize, message_of}
use tetragon_kafka_adapter.Pipeline.Loops.{
  Arrival, Departure, process_events, write_to_kafka, flush_all,
}
use tetragon_kafka_adapter.Pipeline.Passing.{expected, message_for, items_of, events_of}
use tetragon_kafka_adapter.Pipeline.EndToEnd.{flush_all-process_events}
use tetragon_kafka_adapter.Tests.Samples.{
  SampleEvent, sample_api, sample_codecs, sample_router, sample_random, sample_writer, exec_event,
  test_event,
}

abbrev two_arrivals : List (Arrival SampleEvent)
two_arrivals =
    record { draw = one_f; done = false; pick = true; event = exec_event }
    ∷ record { draw = one_f; done = false; pick = true; event = test_event }
    ∷ []

abbrev two_departures : List Departure
two_departures =
    record { now = pos 5; random = sample_random }
    ∷ record { now = pos 6; random = sample_random }
    ∷ []

abbrev empty_queue : Queue SampleEvent
empty_queue = record {
  ch = record { capacity = 2; items = []; closed = false };
  drop_if_queue_full = true;
  stopped = false;
}

abbrev json : SampleEvent → Text
json e = str "{}"

abbrev time : SampleEvent → ℤ
time e = e.time

abbrev passing : SampleEvent → Message SampleEvent
passing =
    message_for sample_api sample_codecs default_config.routing.partition_key sample_router json
      time (str "{}") sample_random

abbrev one_by_one : List (WorkerEvent (Message SampleEvent))
one_by_one =
    receives (passing exec_event) ∷ flush_tick ∷ receives (passing test_event) ∷ channel_closed ∷ []

abbrev never_sent : ℕ → ℕ → Bool
never_sent i j = false

abbrev clock : ℕ → ℤ
clock i = pos i

samples_all : leb_f one_f default_config.tetragon.stream.sample_ratio ≡ true
unfolding leb_f
samples_all = refl

takes_both :
    received (pos 2) start one_by_one
    ≡ items_of
        (write_to_kafka sample_api sample_codecs default_config.routing.partition_key
          default_config.schema sample_router
          (process_events sample_api default_config.tetragon.stream empty_queue two_arrivals)
          (some sample_writer)
          two_departures).1
unfolding received text_eq leb_f worker_step start process_events process_event write_to_kafka push
    pop should_sample write_event write_value write serialize message_of normalize new_event_schema
    set_timestamp
takes_both = refl

returns_then : (worker_run (pos 2) start one_by_one).running ≡ false
unfolding worker_run worker_step start
returns_then = refl

json_format : default_config.schema.format ≢ str "protobuf"
json_format = λ e. cc

flush_all-process_events_example :
    flush_all sample_api 2 never_sent never_sent clock sample_router 0
      (worker_run (pos 2) start one_by_one).flushed
    ≡ map
        (expected sample_api sample_codecs default_config.routing.partition_key sample_router json
          time)
        (events_of two_arrivals)
flush_all-process_events_example =
    flush_all-process_events sample_api sample_codecs default_config.routing.partition_key
      sample_router json time default_config.tetragon.stream default_config.schema empty_queue
      sample_writer two_arrivals two_departures (pos 2) one_by_one 2 never_sent never_sent clock
      samples_all refl refl (omega arith) json_format
      ((refl, (λ e. cc), refl), ((refl, (λ e. cc), refl), tt)) refl refl refl (omega arith)
      (omega arith) (omega arith) takes_both returns_then
