-- ===== src/Queue/Gauge.antt =====
-- updateMetricsLoop of internal/queue/queue.go: the gauges queue_capacity and queue_depth. The
-- ticker's period is the environment's.
use tetragon_kafka_adapter.Prelude.{
  ℕ, ◌≤◌, ◌≡◌, refl, ◌∙◌, Bool, true, List, [], ◌∷◌, none, some, length, length-append,
  if◌then◌else◌, arith,
}
use tetragon_kafka_adapter.Queue.{Queue, push, pop, close, size, capacity}

pub record Watched {ℓ} (A : Type ℓ) : Type ℓ where
  pub queue : Queue A
  pub queue_capacity : ℕ
  pub queue_depth : ℕ

pub data QueueAct {ℓ} (A : Type ℓ) : Type ℓ where
  pushes : (done pick : Bool) → A → QueueAct A
  pops : (done pick : Bool) → QueueAct A
  ticks closes : QueueAct A

module _ {ℓ} {A : Type ℓ} where
  -- NewQueue sets queue_capacity; queue_depth is not set before the first tick.
  unfoldable pub watched : Queue A → Watched A
  watched q = record { queue = q; queue_capacity = capacity q; queue_depth = 0 }

  -- The goroutine is gone once the queue is closed; a second Close panics and changes nothing here.
  unfoldable pub watch : Watched A → QueueAct A → Watched A
  watch w (pushes done pick e) = record w { queue = (push w.queue done pick e).1 }
  watch w (pops done pick) = record w { queue = (pop w.queue done pick).1 }
  watch w ticks = if w.queue.stopped then w else record w { queue_depth = size w.queue }
  watch w closes = elim (close w.queue) [ none ↦ w | some q ↦ record w { queue = q } ]

  unfoldable pub watch_all : Watched A → List (QueueAct A) → Watched A
  watch_all w [] = w
  watch_all w (a ∷ acts) = watch_all (watch w a) acts

  record IsTrue (w : Watched A) : Type 0 where
    fits : length w.queue.ch.items ≤ w.queue.ch.capacity
    same : w.queue_capacity ≡ w.queue.ch.capacity
    below : w.queue_depth ≤ w.queue_capacity

  watch-IsTrue : (w : Watched A) (a : QueueAct A) → IsTrue w → IsTrue (watch w a)
  unfolding watch push pop close size
  watch-IsTrue w (pushes done pick e) h = ground (arith, length-append w.queue.ch.items (e ∷ []))
  watch-IsTrue w (pops done pick) h = ground arith
  watch-IsTrue w ticks h = ground arith
  watch-IsTrue w closes h = ground arith

  -- Whatever is called and in any order, queue_capacity is the capacity of the queue, and queue_depth
  -- does not exceed it.
  watch_all-IsTrue :
      (w : Watched A) (acts : List (QueueAct A)) → IsTrue w → IsTrue (watch_all w acts)
  unfolding watch_all
  watch_all-IsTrue w [] h = h
  watch_all-IsTrue w (a ∷ acts) h = watch_all-IsTrue (watch w a) acts (watch-IsTrue w a h)

  watch-stopped :
      (w : Watched A) (a : QueueAct A)
      → w.queue.stopped ≡ true
      → ((watch w a).queue.stopped ≡ true) × ((watch w a).queue_depth ≡ w.queue_depth)
  unfolding watch push pop close
  watch-stopped w (pushes done pick e) h = ground arith
  watch-stopped w (pops done pick) h = ground arith
  watch-stopped w ticks h = ground arith
  watch-stopped w closes h = ground arith

  -- After Close queue_depth keeps its value, whatever leaves the queue.
  watch_all_stopped :
      (w : Watched A) (acts : List (QueueAct A))
      → w.queue.stopped ≡ true
      → (watch_all w acts).queue_depth ≡ w.queue_depth
  unfolding watch_all
  watch_all_stopped w [] h = refl
  watch_all_stopped w (a ∷ acts) h =
      let (still, same) = watch-stopped w a h in watch_all_stopped (watch w a) acts still ∙ same
