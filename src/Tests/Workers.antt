-- ===== src/Tests/Workers.antt =====
-- A run of the writer with one worker: a message is written, taken, flushed on Close.
use tetragon_kafka_adapter.Prelude.{◌+◌, ◌≡◌, refl, pos, Bool, true, false, [], str, text_eq, arith}
use tetragon_kafka_adapter.Prelude.Every.{All}
use tetragon_kafka_adapter.Prelude.Bags.{count}
use tetragon_kafka_adapter.Kafka.Writer.{Message, Writer, write, close}
use tetragon_kafka_adapter.Kafka.Worker.{Worker, channel_closed, receives, start, worker_step}
use tetragon_kafka_adapter.Kafka.Pool.{
  Pool, start_pool, write_pool, close_pool, turn, take_first, writes, closes, takes, finds_closed,
  Reach, here, next,
}
use tetragon_kafka_adapter.Kafka.Pool.Drained.{Returned, flushed_total, Reach-flushed}
use tetragon_kafka_adapter.Kafka.Pool.Progress.{advances, unfinished, Reach-unfinished}
use tetragon_kafka_adapter.Kafka.Pool.Ending.{close_pool-flushes}
use tetragon_kafka_adapter.Tests.Samples.{SampleEvent, sample_message, sample_writer}

abbrev one_worker : Writer SampleEvent
one_worker = record sample_writer { workers = pos 1 }

abbrev first_message : Message SampleEvent
first_message = sample_message (str "a")

abbrev is_first : Message SampleEvent → Bool
is_first m = text_eq m.trace_id (str "a")

abbrev gathering : Worker (Message SampleEvent)
gathering = worker_step (pos 2) start (receives first_message)

abbrev started : Pool SampleEvent
started = start_pool one_worker

abbrev holding : Pool SampleEvent
holding = write_pool started first_message

abbrev taken_out : Pool SampleEvent
taken_out = take_first (pos 2) holding 0 start first_message []

abbrev shut : Pool SampleEvent
shut = close_pool taken_out

abbrev finished : Pool SampleEvent
finished = turn (pos 2) shut 0 gathering channel_closed

finished-Reach : Reach (pos 2) false started finished
unfolding start_pool start write_pool write take_first turn close_pool close worker_step
finished-Reach =
    next
      (next
        (next (next here (writes started first_message refl))
          (takes holding 0 start first_message [] refl refl refl))
        (closes taken_out))
      (finds_closed shut 0 gathering refl refl refl refl)

All-Returned : All Returned finished.workers
unfolding start_pool start write_pool write take_first turn close_pool close worker_step
All-Returned = (refl, tt)

Reach-flushed_example :
    (finished.writer.message_ch.closed ≡ true)
    × (finished.writer.message_ch.items ≡ [])
    × (count is_first finished.accepted ≡ flushed_total is_first finished.workers)
Reach-flushed_example =
    Reach-flushed is_first (pos 2) one_worker finished (omega arith) (omega arith) refl
      finished-Reach All-Returned

finished_from_shut : Reach (pos 2) false shut finished
unfolding start_pool start write_pool write take_first turn close_pool close worker_step
finished_from_shut = next here (finds_closed shut 0 gathering refl refl refl refl)

shut_is_closed : shut.writer.message_ch.closed ≡ true
unfolding start_pool start write_pool write take_first turn close_pool close worker_step
shut_is_closed = refl

Reach-unfinished_example :
    (finished.writer.message_ch.closed ≡ true)
    × (advances finished_from_shut + unfinished finished ≡ unfinished shut)
Reach-unfinished_example = Reach-unfinished finished_from_shut shut_is_closed

taken_out-Reach : Reach (pos 2) false started taken_out
unfolding start_pool start write_pool write take_first turn worker_step
taken_out-Reach =
    next (next here (writes started first_message refl))
      (takes holding 0 start first_message [] refl refl refl)

taken_out_is_open : taken_out.writer.closed_once ≡ false
unfolding start_pool start write_pool write take_first turn worker_step
taken_out_is_open = refl

close_pool-flushes_example :
    (t : Pool SampleEvent) × Reach (pos 2) false shut t
    × All Returned t.workers
    × (t.accepted ≡ taken_out.accepted)
    × (t.writer.message_ch.items ≡ [])
    × (count is_first taken_out.accepted ≡ flushed_total is_first t.workers)
close_pool-flushes_example =
    close_pool-flushes is_first (pos 2) one_worker taken_out (omega arith) (omega arith) refl
      taken_out-Reach taken_out_is_open
