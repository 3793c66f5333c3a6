-- ===== src/Pipeline/Loops.antt =====
-- The loops of processEvents and writeToKafka of cmd/consumer/main.go, and the flushes of a worker
-- of internal/kafka/writer.go, turn after turn.
use tetragon_kafka_adapter.Prelude.{
  ℕ, suc, ℤ, Bool, true, false, List, [], ◌∷◌, ◌++◌, Option, Text, Float64,
}
use tetragon_kafka_adapter.Config.{StreamConfig, PartitionKeyConfig, SchemaConfig}
use tetragon_kafka_adapter.Tetragon.{TetragonApi}
use tetragon_kafka_adapter.Router.{Router}
use tetragon_kafka_adapter.Queue.{Queue, returns, fails, blocks, pop}
use tetragon_kafka_adapter.Kafka.Producer.{ProducerMessage}
use tetragon_kafka_adapter.Kafka.Writer.{Message, Writer}
use tetragon_kafka_adapter.Kafka.Flush.{flush_batch}
use tetragon_kafka_adapter.Pipeline.{Codecs, process_event, write_event}

-- A turn of processEvents that receives an event, with the sampler's draw and the cases of Push.
pub record Arrival (E : Type 0) : Type 0 where
  pub draw : Float64
  pub done : Bool
  pub pick : Bool
  pub event : E

-- A turn of writeToKafka: its clock and its random bytes.
pub record Departure : Type 0 where
  pub now : ℤ
  pub random : Text

module _ (api : TetragonApi) where
  open api use {Event}

  unfoldable pub process_events : StreamConfig → Queue Event → List (Arrival Event) → Queue Event
  process_events cfg q [] = q
  process_events cfg q (a ∷ arrivals) =
      process_events cfg ((process_event api cfg a.draw a.done a.pick q a.event).1) arrivals

  -- While the context is not cancelled; a turn that finds nothing waits, and no turn comes after it.
  unfoldable pub write_to_kafka :
      Codecs Event
      → PartitionKeyConfig
      → SchemaConfig
      → Router
      → Queue Event
      → Option (Writer Event)
      → List Departure
      → Queue Event × Option (Writer Event)
  write_to_kafka codecs keys cfg r q w [] = (q, w)
  write_to_kafka codecs keys cfg r q w (d ∷ departures) =
      let (o, q') = pop q false true in
      elim o [
        | returns e ↦
            write_to_kafka codecs keys cfg r q'
              ((write_event api codecs keys cfg r d.now d.random w e).1) departures
        | fails x ↦ (q', w)
        | blocks ↦ (q', w)
      ]

  -- The messages that a worker's flushes hand to the client; `nows` is the clock of each flush.
  unfoldable pub flush_all :
      (admitted : ℕ) (dlq_sends dlq_waits : ℕ → ℕ → Bool)
      → (nows : ℕ → ℤ) → Router
      → ℕ
      → List (List (Message Event))
      → List ProducerMessage
  flush_all admitted dlq_sends dlq_waits nows r i [] = []
  flush_all admitted dlq_sends dlq_waits nows r i (batch ∷ batches) =
      (flush_batch api admitted dlq_sends dlq_waits (nows i) r batch).0.produced
      ++ flush_all admitted dlq_sends dlq_waits nows r (suc i) batches
