-- ===== src/Tests/Leaving.antt =====
-- A shutdown that leaves an event in the queue.
use tetragon_kafka_adapter.Prelude.{
  ◌≡◌, ◌≢◌, refl, true, false, List, [], ◌∷◌, ◌++◌, none, some, leb_f,
}
use tetragon_kafka_adapter.Config.Default.{default_config}
use tetragon_kafka_adapter.Health.{new_server}
use tetragon_kafka_adapter.Queue.{size, push}
use tetragon_kafka_adapter.Queue.Sampler.{should_sample}
use tetragon_kafka_adapter.Grpc.Stream.{read_turn, read_events, read_loop}
use tetragon_kafka_adapter.Pipeline.{process_event}
use tetragon_kafka_adapter.Consumer.Flow.{Flow, stays, start_flow, read_into, processed}
use tetragon_kafka_adapter.Consumer.Shutdown.{
  QueueWait, ticks, times_out, still_waiting, wait_for_queue, Serving, shut_down, waits_for_queue,
  returned,
}
use tetragon_kafka_adapter.Consumer.Shutdown.Leftover.{Watched, goes_on, looks_at, shut_down-leaves}
use tetragon_kafka_adapter.Tests.Samples.{SampleEvent, sample_api, sample_codecs}
use tetragon_kafka_adapter.Tests.Started.{serving, serving_writer}
use tetragon_kafka_adapter.Tests.Flowing.{after_push}

-- The context is cancelled after a push, and writeToKafka returns without the event.
abbrev left_behind : Flow SampleEvent
left_behind = record after_push { cancelled = true; writes_on = false }

some_left : left_behind.queue.ch.items ≢ []
unfolding start_flow read_into read_turn read_events read_loop processed process_event should_sample
    push leb_f
some_left h = cc h

is_over : left_behind.writes_on ≡ false
unfolding start_flow read_into processed
is_over = refl

is_open : left_behind.queue.stopped ≡ false
unfolding start_flow read_into read_turn read_events read_loop processed process_event should_sample
    push leb_f
is_open = refl

abbrev one_tick : List QueueWait
one_tick = ticks (size left_behind.queue) (size left_behind.queue) ∷ []

watched :
    Watched sample_api sample_codecs default_config.tetragon.stream
      default_config.routing.partition_key default_config.schema serving.router
      default_config.kafka.batch.max_messages left_behind one_tick left_behind
watched = looks_at stays stays (goes_on stays)

abbrev at_signal : Serving SampleEvent
at_signal = record {
  health = some new_server;
  cancelled = false;
  writer = some serving_writer;
  queue = serving.queue;
  producer = none;
}

waits_at_first : wait_for_queue (ticks 3 3 ∷ []) ≡ still_waiting
unfolding wait_for_queue
waits_at_first = refl

shut_down-leaves_example :
    let (late, v') =
      shut_down at_signal (ticks 3 3 ∷ [] ++ (one_tick ++ times_out ∷ [])) left_behind.queue in
    ((shut_down at_signal (ticks 3 3 ∷ [] ++ one_tick) left_behind.queue).0 ≡ waits_for_queue)
    × (late ≡ returned)
    × ((more : List SampleEvent) × (v'.queue.ch.items ≡ left_behind.queue.ch.items ++ more))
shut_down-leaves_example =
    shut_down-leaves sample_api sample_codecs default_config.tetragon.stream
      default_config.routing.partition_key default_config.schema serving.router
      default_config.kafka.batch.max_messages at_signal left_behind left_behind (ticks 3 3 ∷ [])
      one_tick [] waits_at_first is_over some_left is_open watched
