-- ===== src/Queue/Fifo.antt =====
-- Sequences of calls of the event queue of internal/queue/queue.go, with a log of its events.
use mathlib.Core.List.{append_assoc}
use tetragon_kafka_adapter.Prelude.{
  pos_part, str, ℕ, suc, ◌+◌, ◌≤◌, ◌<◌, ◌⊎◌, ◌≡◌, refl, ◌≢◌, ◌∙◌, sym, Bool, true, false, List, [],
  ◌∷◌, ◌++◌, some, length, length-append, arith,
}
use tetragon_kafka_adapter.Config.{StreamConfig}
use tetragon_kafka_adapter.Metrics.{Metric, drops}
use tetragon_kafka_adapter.Queue.{
  Queue, context_cancelled, Outcome, returns, fails, blocks, push, pop, new_queue, size,
}

-- A call of the queue, with what its `select` finds.
pub data Call {ℓ} (A : Type ℓ) : Type ℓ where
  pushes : (done pick : Bool) → A → Call A
  pops : (done pick : Bool) → Call A

-- The events that the queue took in, those that it gave out, and the increments of drops_total.
pub record Log {ℓ} (A : Type ℓ) : Type ℓ where
  pub queue : Queue A
  pub accepted : List A
  pub popped : List A
  pub dropped : List Metric

module _ {ℓ} {A : Type ℓ} where
  abbrev add_if_returned : List A → A → Outcome (Unit {0}) → List A
  add_if_returned xs e (returns r) = xs ++ e ∷ []
  add_if_returned xs e (fails x) = xs
  add_if_returned xs e blocks = xs

  abbrev add_returned : List A → Outcome A → List A
  add_returned xs (returns e) = xs ++ e ∷ []
  add_returned xs (fails x) = xs
  add_returned xs blocks = xs

  pub step : Log A → Call A → Log A
  step l (pushes done pick e) =
      let (r, q, ms) = push l.queue done pick e in
      record l { queue = q; accepted = add_if_returned l.accepted e r; dropped = l.dropped ++ ms }
  step l (pops done pick) =
      let (r, q) = pop l.queue done pick in record l { queue = q; popped = add_returned l.popped r }

  pub run : Log A → List (Call A) → Log A
  run l [] = l
  run l (c ∷ cs) = run (step l c) cs

  -- The events taken in against those given out and those that wait.
  pub record IsFifo (l : Log A) : Type ℓ where
    pub in_order : l.accepted ≡ l.popped ++ l.queue.ch.items
    pub fits : length l.queue.ch.items ≤ l.queue.ch.capacity

  abbrev Split : List A → List A → Type ℓ
  Split xs [] = Unit
  Split xs (y ∷ ys) = xs ++ (y ∷ ys) ≡ (xs ++ y ∷ []) ++ ys

  split_first : (xs ys : List A) → Split xs ys
  split_first xs [] = tt
  split_first xs (y ∷ ys) = sym (append_assoc xs (y ∷ []) ys)

  step-IsFifo : (l : Log A) (c : Call A) → IsFifo l → IsFifo (step l c)
  unfolding step push pop
  step-IsFifo l (pushes done pick e) h =
      let waiting = l.queue.ch.items in
      ground (arith, append_assoc l.popped waiting (e ∷ []), length-append waiting (e ∷ []))
  step-IsFifo l (pops done pick) h = ground (arith, split_first l.popped l.queue.ch.items)

  run-IsFifo : (l : Log A) (cs : List (Call A)) → IsFifo l → IsFifo (run l cs)
  unfolding run
  run-IsFifo l [] h = h
  run-IsFifo l (c ∷ cs) h = run-IsFifo (step l c) cs (step-IsFifo l c h)

  capacity-step : (l : Log A) (c : Call A) → (step l c).queue.ch.capacity ≡ l.queue.ch.capacity
  unfolding step push pop
  capacity-step l (pushes done pick e) = ground arith
  capacity-step l (pops done pick) = ground arith

  capacity-run :
      (l : Log A) (cs : List (Call A)) → (run l cs).queue.ch.capacity ≡ l.queue.ch.capacity
  unfolding run
  capacity-run l [] = refl
  capacity-run l (c ∷ cs) = capacity-run (step l c) cs ∙ capacity-step l c

  pub start : Queue A → Log A
  start q = record { queue = q; accepted = []; popped = []; dropped = [] }

  new_queue-IsFifo :
      (cfg : StreamConfig) (q : Queue A)
      → new_queue cfg ≡ some q
      → IsFifo (start q)
        × (q.ch.capacity ≡ pos_part cfg.max_queue)
        × (q.drop_if_queue_full ≡ cfg.drop_if_queue_full)
  unfolding new_queue start
  new_queue-IsFifo cfg q h = ground arith

  -- After any calls of a new queue, in any order and whatever the selects choose, the events taken
  -- in are those given out followed by those that wait, and at most `max_queue` wait.
  pub run-new_queue :
      (cfg : StreamConfig) (q : Queue A) (cs : List (Call A))
      → new_queue cfg ≡ some q
      → let l = run (start q) cs in
        (l.accepted ≡ l.popped ++ l.queue.ch.items) × (size l.queue ≤ pos_part cfg.max_queue)
  unfolding size start
  run-new_queue cfg q cs h =
      let (fifo, cap, _) = new_queue-IsFifo cfg q h in
      let after = run-IsFifo (start q) cs fifo in
      (after.in_order, omega (arith, after.fits, capacity-run (start q) cs, cap))

  abbrev pub pushed : List (Call A) → ℕ
  pushed [] = 0
  pushed (pushes done pick e ∷ cs) = suc (pushed cs)
  pushed (pops done pick ∷ cs) = pushed cs

  -- What a call adds to the accepted events and to the counted drops.
  accounted-step :
      (l : Log A) (c : Call A)
      → l.queue.drop_if_queue_full ≡ true
      → (length (step l c).accepted + length (step l c).dropped
          ≡ length l.accepted + length l.dropped + pushed (c ∷ []))
        × ((step l c).queue.drop_if_queue_full ≡ true)
  unfolding step push pop
  accounted-step l (pushes done pick e) h = ground (
    arith,
    length-append l.accepted (e ∷ []),
    length-append l.dropped [],
    length-append l.dropped (drops (str "queue_full") ∷ []),
  )
  accounted-step l (pops done pick) h = ground arith

  pushed-cons : (c : Call A) (cs : List (Call A)) → pushed (c ∷ cs) ≡ pushed (c ∷ []) + pushed cs
  pushed-cons (pushes done pick e) cs = omega arith
  pushed-cons (pops done pick) cs = omega arith

  -- In drop mode each push is either taken in or counted in drops_total, never both: over any
  -- calls of a queue, the growth of the two adds up to the number of pushes.
  accounted-run :
      (l : Log A) (cs : List (Call A))
      → l.queue.drop_if_queue_full ≡ true
      → length (run l cs).accepted + length (run l cs).dropped
        ≡ length l.accepted + length l.dropped + pushed cs
  unfolding run
  accounted-run l [] h = omega arith
  accounted-run l (c ∷ cs) h =
      let (now, mode) = accounted-step l c h in
      omega (arith, now, accounted-run (step l c) cs mode, pushed-cons c cs)

  -- Once the context is cancelled, `Pop` may refuse although events wait: a waiting event is given
  -- out only where the select chooses the channel, and the refusal leaves the queue as it was.
  pub pop_cancelled :
      (q : Queue A) (pick : Bool)
      → (pop q true false ≡ (fails context_cancelled, q)) × ((pop q true pick).0 ≢ blocks)
  unfolding pop
  pop_cancelled q pick = ground arith

module _ {A : Type 0} where
  -- In block mode a push counts no drop and ends in one of three ways: the queue has room and the
  -- event is put at its end; or it fails because the context is cancelled, or blocks while the queue
  -- is full and the context is not cancelled, and in both cases the queue stays as it was.
  push_block_mode :
      (q : Queue A) (done pick : Bool) (e : A)
      → q.drop_if_queue_full ≡ false
      → let (r, q', ms) = push q done pick e in
        (ms ≡ [])
        × (((r ≡ returns tt)
              × (q'.ch.items ≡ q.ch.items ++ e ∷ [])
              × (length q.ch.items < q.ch.capacity))
            ⊎ ((r ≡ fails context_cancelled) × (done ≡ true) × (q' ≡ q))
            ⊎ ((r ≡ blocks) × (done ≡ false) × (q' ≡ q) × (q.ch.capacity ≤ length q.ch.items)))
  unfolding push
  push_block_mode q done pick e h = ground arith
