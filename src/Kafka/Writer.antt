-- ===== src/Kafka/Writer.antt =====
-- internal/kafka/writer.go: the queue of messages before the workers. The workers, which take the
-- messages in batches, are in Kafka.Worker, and what they do with a batch in Kafka.Flush.
pub mod Bounds
use tetragon_kafka_adapter.Prelude.{
  ℕ, suc, ◌==◌, ℤ, pos, negsuc, ◌*◌, Bool, true, false, List, [], ◌∷◌, Option, none, some, Text,
  str, if◌then◌else◌,
}
use tetragon_kafka_adapter.Config.{KafkaConfig}
use tetragon_kafka_adapter.Metrics.{Metric, drops}
use tetragon_kafka_adapter.Channel.{Channel, make, has_room, put}

pub record Message (E : Type 0) : Type 0 where
  pub event : Option E
  pub event_type : Text
  pub content_type : Text
  pub topic : Text
  pub key : Text
  pub value : Text
  pub trace_id : Text

pub record Writer (E : Type 0) : Type 0 where
  pub message_ch : Channel (Message E)
  pub workers : ℤ
  -- `closeOnce` has run.
  pub closed_once : Bool

-- The product of two ints that the validator bounds; a negative size makes `make` panic.
abbrev pub channel_size : ℤ → ℤ → Option ℕ
channel_size (pos a) (pos b) = some (a * b)
channel_size (negsuc a) (negsuc b) = some (suc a * suc b)
channel_size (pos a) (negsuc b) = if a == 0 then some 0 else none
channel_size (negsuc a) (pos b) = if b == 0 then some 0 else none

pub data WriteResult : Type 0 where
  written queue_full panics : WriteResult

module _ {E : Type 0} where
  unfoldable pub new_writer : KafkaConfig → Option (Writer E)
  new_writer cfg = elim (channel_size cfg.batch.max_messages cfg.writer_workers) [
    | none ↦ none
    | some n ↦
        some (record { message_ch = make n; workers = cfg.writer_workers; closed_once = false })
  ]

  -- A `select` with a `default`; a send on a closed channel panics in a `select` too.
  unfoldable pub write : Writer E → Message E → WriteResult × Writer E × List Metric
  write w msg =
      if w.message_ch.closed
      then (panics, w, [])
      else if has_room w.message_ch
      then (written, record w { message_ch = put w.message_ch msg }, [])
      else (queue_full, w, drops (str "writer_queue_full") ∷ [])

  unfoldable pub close : Writer E → Writer E
  close w =
      if w.closed_once
      then w
      else record w { message_ch = record (w.message_ch) { closed = true }; closed_once = true }
