-- ===== src/Consumer/Shutdown.antt =====
-- main of cmd/consumer/main.go from the signal on: the steps of the shutdown in their order, then the
-- deferred calls. The waits that only time out, the server of /metrics and the logs are left out. The
-- wait for the queue is a list of the cases of its select; the goroutines use the queue meanwhile, so
-- that what they have made of it is an argument.
pub mod Leftover
use tetragon_kafka_adapter.Prelude.{
  ℕ, Bool, true, false, ◌&&◌, List, [], ◌∷◌, Option, none, some, ◌==◌, if◌then◌else◌,
}
use tetragon_kafka_adapter.Health.{Server, set_shutdown}
use tetragon_kafka_adapter.Queue.{Queue, close}
use tetragon_kafka_adapter.Kafka
use tetragon_kafka_adapter.Kafka.Producer.{Producer}
use tetragon_kafka_adapter.Kafka.Writer.{Writer}

-- A tick finds a size of the queue, and, where that is 0, another size half a second later.
pub data QueueWait : Type 0 where
  times_out : QueueWait
  ticks : (queue_size later : ℕ) → QueueWait

pub data Waited : Type 0 where
  still_waiting drained timed_out : Waited

unfoldable pub wait_for_queue : List QueueWait → Waited
wait_for_queue [] = still_waiting
wait_for_queue (times_out ∷ waits) = timed_out
wait_for_queue (ticks queue_size later ∷ waits) =
    let rest = wait_for_queue waits in if (queue_size == 0) && (later == 0) then drained else rest

pub record Serving (E : Type 0) : Type 0 where
  -- `none`: no server answers, since there is none or it has been shut down.
  pub health : Option Server
  pub cancelled : Bool
  pub writer : Option (Writer E)
  pub queue : Queue E
  pub producer : Option Producer

-- What main has come to: it waits for the queue, has returned, or a Close has panicked.
pub data Ended : Type 0 where
  waits_for_queue returned queue_close_panics : Ended

abbrev pub refuses : Option Server → Option Server
refuses none = none
refuses (some s) = some (set_shutdown true s)

abbrev pub closed_producer : Option Producer → Option Producer
closed_producer none = none
closed_producer (some p) = some ((Kafka.Producer.close p).0)

module _ {E : Type 0} where
  abbrev pub closed_writer : Option (Writer E) → Option (Writer E)
  closed_writer none = none
  closed_writer (some w) = some (Kafka.Writer.close w)

  -- The first two steps.
  abbrev pub stop_receiving : Serving E → Serving E
  stop_receiving s = record s { health = refuses s.health; cancelled = true }

  -- The writer, the health server, then the deferred calls: the producer, the queue.
  abbrev pub finish : Serving E → (left : Queue E) → Ended × Serving E
  finish s left =
      let s' = record s {
        writer = closed_writer s.writer;
        health = none;
        producer = closed_producer s.producer;
        queue = left;
      } in
      elim (close left) [
        | none ↦ (queue_close_panics, s')
        | some q ↦ (returned, record s' { queue = q })
      ]

  -- `left` is the queue as it is when the wait is over.
  unfoldable pub shut_down : Serving E → List QueueWait → (left : Queue E) → Ended × Serving E
  shut_down s waits left = elim (wait_for_queue waits) [
    | still_waiting ↦ (waits_for_queue, stop_receiving s)
    | drained ↦ finish (stop_receiving s) left
    | timed_out ↦ finish (stop_receiving s) left
  ]
