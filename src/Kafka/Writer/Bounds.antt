-- ===== src/Kafka/Writer/Bounds.antt =====
-- The channel of the writer of internal/kafka/writer.go: its size, writes, Close.
use native.Mathlib.Nat.{mul-le-mul}
use tetragon_kafka_adapter.Prelude.{
  ℤ, pos, negsuc, ◌≤ℤ◌, ◌*◌, ◌≤◌, ◌≡◌, refl, ◌⊎◌, pos_part, Text, str, [], ◌∷◌, ◌++◌, some, false,
  arith, length, length-append,
}
use tetragon_kafka_adapter.Config.{Config}
use tetragon_kafka_adapter.Config.Valid.{IsValid}
use tetragon_kafka_adapter.Metrics.{drops}
use tetragon_kafka_adapter.Channel.{Fits, make}
use tetragon_kafka_adapter.Kafka.Writer.{
  Message, Writer, channel_size, new_writer, write, written, queue_full,
}

sized :
    (a b : ℤ)
    → pos 1 ≤ℤ a
    → a ≤ℤ pos 100000
    → pos 1 ≤ℤ b
    → b ≤ℤ pos 1000
    → (channel_size a b ≡ some (pos_part a * pos_part b))
      × (1 ≤ pos_part a * pos_part b)
      × (pos_part a * pos_part b ≤ 100000000)
sized (pos a) (pos b) la ha lb hb =
    let low : 1 * 1 ≤ a * b =
      mul-le-mul {n₁ = 1} {m₁ = 1} {n₂ = a} {m₂ = b} (omega arith) (omega arith) in
    let high : a * b ≤ 100000 * 1000 =
      mul-le-mul {n₁ = a} {m₁ = b} {n₂ = 100000} {m₂ = 1000} (omega arith) (omega arith) in
    (refl, low, high)
sized (negsuc a) b la ha lb hb = absurd (omega arith)
sized (pos a) (negsuc b) la ha lb hb = absurd (omega arith)

-- In a valid configuration the writer's channel can be made, and holds between 1 and 100,000,000
-- messages: max_messages for each worker.
pub new_writer-IsValid :
    (E : Type 0) (unicode : Text → Text) (cfg : Config)
    → IsValid unicode cfg
    → (w : Writer E) × (new_writer cfg.kafka ≡ some w)
      × (w.message_ch.capacity
          ≡ pos_part cfg.kafka.batch.max_messages * pos_part cfg.kafka.writer_workers)
      × (1 ≤ w.message_ch.capacity)
      × (w.message_ch.capacity ≤ 100000000)
unfolding new_writer
new_writer-IsValid E unicode cfg v =
    let (size, low, high) =
      sized cfg.kafka.batch.max_messages cfg.kafka.writer_workers v.batch.messages_low
        v.batch.messages_high v.workers_low v.workers_high in
    (
      record {
        message_ch =
            make (pos_part cfg.kafka.batch.max_messages * pos_part cfg.kafka.writer_workers);
        workers = cfg.kafka.writer_workers;
        closed_once = false;
      },
      rw (size, new_writer),
      refl,
      low,
      high,
    )

module _ {E : Type 0} where
  -- A write to an open writer is taken in at the end of the channel, or refused and counted where
  -- the channel is full; the channel never holds more than its capacity.
  write_open :
      (w : Writer E) (m : Message E)
      → w.message_ch.closed ≡ false
      → Fits w.message_ch
      → let (r, w', ms) = write w m in
        Fits w'.message_ch
        × (((r ≡ written) × (w'.message_ch.items ≡ w.message_ch.items ++ m ∷ []) × (ms ≡ []))
            ⊎ ((r ≡ queue_full)
                × (w' ≡ w)
                × (length w.message_ch.items ≡ w.message_ch.capacity)
                × (ms ≡ drops (str "writer_queue_full") ∷ [])))
  unfolding write
  write_open w m h f = ground (arith, length-append w.message_ch.items (m ∷ []))
