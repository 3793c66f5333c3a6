-- ===== src/Kafka/Worker/Batches.antt =====
-- The messages and batches of the worker of internal/kafka/writer.go.
use mathlib.Core.List.{append-nil, append_assoc}
use tetragon_kafka_adapter.Prelude.{
  ◌≤◌, ◌≡◌, ◌⊎◌, inl, inr, Bool-cases, true, refl, ◌∙◌, sym, ℤ, pos, ◌≤ℤ◌, ◌<ℤ◌, false, List, [],
  ◌∷◌, ◌++◌, length, length-append, if◌then◌else◌, arith,
}
use tetragon_kafka_adapter.Kafka.Worker.{
  WorkerEvent, receives, metrics_tick, Worker, start, worker_step, worker_run,
}

module _ {M : Type 0} where
  unfoldable pub concat : List (List M) → List M
  concat [] = []
  concat (xs ∷ xss) = xs ++ concat xss

  concat-append : (xss : List (List M)) (ys : List M) → concat (xss ++ ys ∷ []) ≡ concat xss ++ ys
  unfolding concat
  concat-append [] ys = append-nil ys
  concat-append (xs ∷ xss) ys = rw (concat-append xss ys) (sym (append_assoc xs (concat xss) ys))

  -- The messages that the worker took from the channel: those of the events before it returned.
  unfoldable pub received : ℤ → Worker M → List (WorkerEvent M) → List M
  received max w [] = []
  received max w (receives m ∷ es) =
      let rest = received max (worker_step max w (receives m)) es in
      if w.running then m ∷ rest else rest
  received max w (e ∷ es) = received max (worker_step max w e) es

  abbrev pub AllSizes : ℤ → List (List M) → Type 0
  AllSizes max [] = Unit
  AllSizes max (xs ∷ xss) = (1 ≤ length xs) × (pos (length xs) ≤ℤ max) × AllSizes max xss

  AllSizes-append :
      (max : ℤ) (xss : List (List M)) (ys : List M)
      → AllSizes max xss
      → 1 ≤ length ys
      → pos (length ys) ≤ℤ max
      → AllSizes max (xss ++ ys ∷ [])
  AllSizes-append max [] ys h l u = (l, u, tt)
  AllSizes-append max (xs ∷ xss) ys h l u = (h.0, h.1, AllSizes-append max xss ys h.2 l u)

  pub record IsSound (max : ℤ) (w : Worker M) : Type 0 where
    pub below : pos (length w.batch) <ℤ max
    pub sizes : AllSizes max w.flushed
    pub stopped : w.running ≡ false → w.batch ≡ []

  -- The messages that the worker has flushed, then those that it gathers.
  unfoldable pub handled : Worker M → List M
  handled w = concat w.flushed ++ w.batch

  pub step-IsSound :
      (max : ℤ) (w : Worker M) (e : WorkerEvent M)
      → pos 1 ≤ℤ max
      → IsSound max w
      → IsSound max (worker_step max w e)
  unfolding worker_step
  step-IsSound max w (receives m) l h = ground (
    arith,
    length-append w.batch (m ∷ []),
    AllSizes-append max w.flushed (w.batch ++ m ∷ []) h.sizes,
  )
  step-IsSound max w (metrics_tick n) l h = ground arith
  step-IsSound max w e l h = ground (arith, AllSizes-append max w.flushed w.batch h.sizes)

  -- What one event adds.
  abbrev pub taken : Worker M → WorkerEvent M → List M
  taken w (receives m) = if w.running then m ∷ [] else []
  taken w e = []

  pub handled-step :
      (max : ℤ) (w : Worker M) (e : WorkerEvent M)
      → handled (worker_step max w e) ≡ handled w ++ taken w e
  unfolding worker_step handled
  handled-step max w (receives m) = ground (
    arith,
    concat-append w.flushed (w.batch ++ m ∷ []),
    append-nil (concat w.flushed ++ (w.batch ++ m ∷ [])),
    append-nil (concat w.flushed ++ w.batch),
    append_assoc (concat w.flushed) w.batch (m ∷ []),
  )
  handled-step max w (metrics_tick n) = ground (arith, append-nil (concat w.flushed ++ w.batch))
  handled-step max w e = ground (
    arith,
    concat-append w.flushed w.batch,
    append-nil (concat w.flushed ++ w.batch),
    append-nil (concat w.flushed),
  )

  received-cons :
      (max : ℤ) (w : Worker M) (e : WorkerEvent M) (es : List (WorkerEvent M))
      → received max w (e ∷ es) ≡ taken w e ++ received max (worker_step max w e) es
  unfolding received
  received-cons max w (receives m) es = ground arith
  received-cons max w e es = refl

  handled-run :
      (max : ℤ) (w : Worker M) (es : List (WorkerEvent M))
      → handled (worker_run max w es) ≡ handled w ++ received max w es
  unfolding worker_run
  handled-run max w [] = unfold received in sym (append-nil (handled w))
  handled-run max w (e ∷ es) = rw (received-cons max w e es) (
      handled-run max (worker_step max w e) es
      ∙ rw (handled-step max w e) (append_assoc (handled w) (taken w e) _))

  run-IsSound :
      (max : ℤ) (w : Worker M) (es : List (WorkerEvent M))
      → pos 1 ≤ℤ max
      → IsSound max w
      → IsSound max (worker_run max w es)
  unfolding worker_run
  run-IsSound max w [] l h = h
  run-IsSound max w (e ∷ es) l h =
      run-IsSound max (worker_step max w e) es l (step-IsSound max w e l h)

  pub start-IsSound : (max : ℤ) → pos 1 ≤ℤ max → IsSound max start
  unfolding start
  start-IsSound max l = record { below = omega arith; sizes = tt; stopped = λ e. refl }

  without_rest : (xs ys : List M) {zs : List M} → xs ++ ys ≡ zs → ys ≡ [] → xs ≡ zs
  without_rest xs ys h e = sym (append-nil xs) ∙ rw e at h

  -- Over any events of a new worker with max_messages at least 1: the batches that it flushed,
  -- followed by the one it gathers, are exactly the messages that it took from the channel, in
  -- order; every flushed batch has between 1 and max_messages messages; fewer than max_messages
  -- wait; and once the worker has returned none wait, so that every message it took was flushed.
  pub worker_run-start :
      (max : ℤ) (es : List (WorkerEvent M))
      → pos 1 ≤ℤ max
      → let w = worker_run max start es in
        (concat w.flushed ++ w.batch ≡ received max start es)
        × AllSizes max w.flushed
        × (pos (length w.batch) <ℤ max)
        × ((w.running ≡ true) ⊎ (concat w.flushed ≡ received max start es))
  unfolding start concat handled
  worker_run-start max es l =
      let whole = handled-run max start es in
      let w = worker_run max start es in
      let sound = run-IsSound max start es l (start-IsSound max l) in
      (
        whole,
        sound.sizes,
        sound.below,
        elim (Bool-cases w.running) [
          | inl going ↦ inl going
          | inr stopped ↦ inr (without_rest _ _ whole (sound.stopped stopped))
        ],
      )
