-- ===== src/Tests/Flowing.antt =====
-- A run of the goroutines of cmd/consumer/main.go in which one event reaches a worker of the writer.
use mathlib.Core.List.{Sublist}
use tetragon_kafka_adapter.Prelude.{
  ◌++◌, pos, ◌+◌, ◌≡◌, refl, none, ◌≤◌, arith, true, false, [], some, length, one_f, leb_f,
}
use tetragon_kafka_adapter.Prelude.Bags.{bag}
use tetragon_kafka_adapter.Config.Default.{default_config}
use tetragon_kafka_adapter.Queue.{push, pop}
use tetragon_kafka_adapter.Queue.Sampler.{should_sample}
use tetragon_kafka_adapter.Grpc.Stream.{Turn, read_turn, read_events, read_loop}
use tetragon_kafka_adapter.Kafka.Pool.{start_pool}
use tetragon_kafka_adapter.Pipeline.{process_event}
use tetragon_kafka_adapter.Consumer.Flow.{
  AreRandom, Flow, start_flow, read_into, processed, written_out, FlowReach, stays, steps, looks,
  reads, ends_processing, receives_event, processes, pops, writes_event,
}
use tetragon_kafka_adapter.Consumer.Flow.Places.{held, places, events_in}
use tetragon_kafka_adapter.Consumer.Flow.Draining.{FlowReach-empties}
use tetragon_kafka_adapter.Consumer.Flow.Formed.{IsFormed, FlowReach-IsFormed}
use tetragon_kafka_adapter.Prelude.Every.{All}
use tetragon_kafka_adapter.Kafka.Writer.{Message}
use tetragon_kafka_adapter.Kafka.Worker.Batches.{handled}
use tetragon_kafka_adapter.Consumer.Flow.Left.{left}
use tetragon_kafka_adapter.Consumer.Flow.Finishing.{moves, FlowReach-left}
use tetragon_kafka_adapter.Consumer.Flow.Ended.{IsOver, FlowReach-IsOver}
use tetragon_kafka_adapter.Consumer.Flow.Counted.{FlowReach-counts}
use tetragon_kafka_adapter.Consumer.Flow.Started.{start_service-FlowReach}
use tetragon_kafka_adapter.Tests.Configuration.{list_admin}
use tetragon_kafka_adapter.Tests.Logging.{never_equal}
use tetragon_kafka_adapter.Tests.Service.{reachable}
use tetragon_kafka_adapter.Tests.Started.{serving, serving_writer, start_service-serving}
use tetragon_kafka_adapter.Tests.Samples.{
  same_unicode, SampleEvent, sample_api, sample_codecs, sample_random, exec_event,
}

abbrev arrives : Turn SampleEvent
arrives = record {
  cancelled = false;
  recv = some exec_event;
  room = true;
  done = false;
  pick = true;
}

abbrev at_start : Flow SampleEvent
at_start = start_flow true serving.grpc_event_ch serving.queue serving_writer

abbrev in_recv : Flow SampleEvent
in_recv = record at_start { receiving = true }

abbrev after_read : Flow SampleEvent
after_read = read_into in_recv arrives

abbrev after_receive : Flow SampleEvent
after_receive = record after_read {
  processing = some exec_event;
  grpc_event_ch = serving.grpc_event_ch;
}

abbrev pub after_push : Flow SampleEvent
after_push = processed sample_api default_config.tetragon.stream after_receive exec_event one_f true

abbrev after_pop : Flow SampleEvent
after_pop = record after_push { writing = some exec_event; queue = serving.queue }

abbrev after_write : Flow SampleEvent
after_write =
    written_out sample_api sample_codecs default_config.routing.partition_key default_config.schema
      serving.router after_pop exec_event (pos 5) sample_random

abbrev Run : Flow SampleEvent → Type 0
Run =
    FlowReach sample_api sample_codecs default_config.tetragon.stream
      default_config.routing.partition_key default_config.schema serving.router
      default_config.kafka.batch.max_messages at_start

after_push-FlowReach : Run after_push
unfolding start_flow read_into read_turn read_events read_loop processed process_event should_sample
    push leb_f
after_push-FlowReach =
    steps
      (steps
        (steps (steps stays (looks at_start refl refl refl))
          (reads in_recv arrives refl refl refl refl refl))
        (receives_event after_read exec_event [] refl refl refl refl))
      (processes after_receive exec_event one_f true refl (λ h. cc))

sample_random-AreRandom : AreRandom sample_random
sample_random-AreRandom = (refl, omega arith)

after_write-FlowReach : Run after_write
unfolding start_flow read_into read_turn read_events read_loop processed process_event should_sample
    push leb_f pop start_pool
after_write-FlowReach =
    steps
      (steps after_push-FlowReach
        (pops after_push exec_event serving.queue true refl refl refl refl))
      (writes_event after_pop exec_event (pos 5) sample_random refl refl sample_random-AreRandom)

FlowReach-counts_example :
    (after_write.arrivals + after_write.arrivals_due
      ≡ length after_write.refused
        + length after_write.queue.ch.items
        + length (held after_write.writing)
        + (after_write.outcomes + after_write.outcomes_due))
    × (after_write.outcomes + after_write.outcomes_due
        ≡ length after_write.failed + length after_write.pool.accepted)
    × (after_write.arrivals_due ≤ 1)
    × (after_write.outcomes_due ≤ 1)
FlowReach-counts_example =
    FlowReach-counts sample_api sample_codecs default_config.tetragon.stream
      default_config.routing.partition_key default_config.schema serving.router
      default_config.kafka.batch.max_messages true serving.grpc_event_ch serving.queue
      serving_writer after_write refl after_write-FlowReach

start_service-FlowReach_example :
    (bag after_write.delivered ≡ bag (places after_write))
    × Sublist
        (events_in after_write.pool.accepted
          ++ (held after_write.writing
              ++ (after_write.queue.ch.items
                  ++ (held after_write.processing ++ after_write.grpc_event_ch.items))))
        after_write.delivered
start_service-FlowReach_example =
    start_service-FlowReach same_unicode never_equal list_admin sample_api sample_codecs reachable
      default_config serving serving_writer true after_write start_service-serving refl
      after_write-FlowReach

FlowReach-empties_example :
    (t : Flow SampleEvent) × FlowReach sample_api sample_codecs default_config.tetragon.stream
      default_config.routing.partition_key default_config.schema serving.router
      default_config.kafka.batch.max_messages after_push t
    × (t.delivered ≡ after_push.delivered)
    × (t.grpc_event_ch.items ≡ [])
    × (t.processing ≡ none)
    × (t.queue.ch.items ≡ [])
    × (t.writing ≡ none)
unfolding start_flow read_into read_turn read_events read_loop processed process_event should_sample
    push leb_f start_pool
FlowReach-empties_example =
    FlowReach-empties sample_api sample_codecs default_config.tetragon.stream
      default_config.routing.partition_key default_config.schema serving.router
      default_config.kafka.batch.max_messages after_push refl refl (omega arith) refl refl

abbrev Fits : Message SampleEvent → Type 0
Fits = IsFormed sample_api sample_codecs default_config.routing.partition_key serving.router

FlowReach-IsFormed_example :
    All Fits after_write.pool.writer.message_ch.items
    × All (λ v. All Fits (handled v)) after_write.pool.workers
FlowReach-IsFormed_example =
    FlowReach-IsFormed sample_api sample_codecs default_config.tetragon.stream
      default_config.routing.partition_key default_config.schema serving.router
      default_config.kafka.batch.max_messages true serving.grpc_event_ch serving.queue
      serving_writer after_write refl after_write-FlowReach

-- After the read the context is cancelled, with the event in the channel.
abbrev stopped : Flow SampleEvent
stopped = record after_read { cancelled = true }

abbrev ending : Flow SampleEvent
ending = record stopped { processes_on = false }

stopped_is_cancelled : stopped.cancelled ≡ true
unfolding start_flow read_into
stopped_is_cancelled = refl

stopped_is_open : stopped.pool.writer.message_ch.closed ≡ false
unfolding start_flow read_into start_pool
stopped_is_open = refl

to_end :
    FlowReach sample_api sample_codecs default_config.tetragon.stream
      default_config.routing.partition_key default_config.schema serving.router
      default_config.kafka.batch.max_messages stopped ending
unfolding start_flow read_into
to_end = steps stays (ends_processing stopped refl refl refl refl)

FlowReach-left_example :
    (ending.cancelled ≡ true)
    × (moves sample_api sample_codecs default_config.tetragon.stream
            default_config.routing.partition_key default_config.schema serving.router
            default_config.kafka.batch.max_messages to_end
          + left ending
        ≤ left stopped)
FlowReach-left_example =
    FlowReach-left sample_api sample_codecs default_config.tetragon.stream
      default_config.routing.partition_key default_config.schema serving.router
      default_config.kafka.batch.max_messages to_end stopped_is_cancelled

FlowReach-IsOver_example :
    (t : Flow SampleEvent) × FlowReach sample_api sample_codecs default_config.tetragon.stream
      default_config.routing.partition_key default_config.schema serving.router
      default_config.kafka.batch.max_messages stopped t
    × IsOver t
FlowReach-IsOver_example =
    FlowReach-IsOver sample_api sample_codecs default_config.tetragon.stream
      default_config.routing.partition_key default_config.schema serving.router
      default_config.kafka.batch.max_messages stopped stopped_is_cancelled stopped_is_open
