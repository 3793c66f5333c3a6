-- ===== src/Queue.antt =====
-- internal/queue/queue.go: the event queue over a buffered channel. A `select` over several ready
-- cases takes any of them: `pick` is true where Go's choice falls on the channel. `done` says that
-- the caller's context is cancelled. A call that waits for ever under these conditions `blocks`.
-- The goroutine that reports the depth only reads the state: Queue.Gauge has it.
pub mod Fifo
pub mod Sampler
pub mod Gauge
use tetragon_kafka_adapter.Prelude.{
  ℕ, suc, ℤ, pos, negsuc, Bool, true, false, ◌&&◌, ◌||◌, not, List, [], ◌∷◌, ◌++◌, Option, none,
  some, str, length, if◌then◌else◌,
}
use tetragon_kafka_adapter.Config.{StreamConfig}
use tetragon_kafka_adapter.Metrics.{Metric, drops}
use tetragon_kafka_adapter.Channel.{Channel, make, has_room, put, first}

pub record Queue {ℓ} (A : Type ℓ) : Type ℓ where
  pub ch : Channel A
  pub drop_if_queue_full : Bool
  -- `stopCh` closed and the metrics goroutine gone.
  pub stopped : Bool

pub data QueueError : Type 0 where
  queue_full context_cancelled : QueueError

pub data Outcome {ℓ} (R : Type ℓ) : Type ℓ where
  returns : R → Outcome R
  fails : QueueError → Outcome R
  blocks : Outcome R

module _ {ℓ} {A : Type ℓ} where
  -- `none` is the panic of `make` at a negative size.
  unfoldable pub new_queue : StreamConfig → Option (Queue A)
  new_queue cfg = elim cfg.max_queue [
    | pos n ↦
        some (record { ch = make n; drop_if_queue_full = cfg.drop_if_queue_full; stopped = false })
    | negsuc n ↦ none
  ]

  abbrev enqueue : Queue A → A → Queue A
  enqueue q e = record q { ch = put q.ch e }

  unfoldable pub push :
      Queue A → (done pick : Bool) → A → Outcome (Unit {0}) × Queue A × List Metric
  push q done pick e =
      if q.drop_if_queue_full
      then (if has_room q.ch
          then (returns tt, enqueue q e, [])
          else (fails queue_full, q, drops (str "queue_full") ∷ []))
      else if has_room q.ch && (pick || not done)
      then (returns tt, enqueue q e, [])
      else if done
      then (fails context_cancelled, q, [])
      else (blocks, q, [])

  -- The value that `Pop` can take, and what it leaves.
  abbrev taken : Queue A → Bool → Bool → Option (A × List A) → Outcome A × Queue A
  taken q done pick none = if done then (fails context_cancelled, q) else (blocks, q)
  taken q done pick (some (e, rest)) =
      if pick || not done
      then (returns e, record q { ch = record (q.ch) { items = rest } })
      else (fails context_cancelled, q)

  unfoldable pub pop : Queue A → (done pick : Bool) → Outcome A × Queue A
  pop q done pick = taken q done pick (first q.ch.items)

  -- A second `Close` panics: it closes a closed channel.
  unfoldable pub close : Queue A → Option (Queue A)
  close q = if q.stopped then none else some (record q { stopped = true })

  unfoldable pub size : Queue A → ℕ
  size q = length q.ch.items

  unfoldable pub capacity : Queue A → ℕ
  capacity q = q.ch.capacity

  -- The queue with these events in it.
  abbrev pub holding : Queue A → List A → Queue A
  holding q xs = record q { ch = record (q.ch) { items = xs } }
