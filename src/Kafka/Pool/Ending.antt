-- ===== src/Kafka/Pool/Ending.antt =====
-- The end of the workers of internal/kafka/writer.go after Close.
use tetragon_kafka_adapter.Prelude.{
  ℕ, zero, suc, ◌+◌, ◌≤◌, ◌≡◌, refl, ◌∙◌, ◌⊎◌, inl, inr, ℤ, pos, ◌≤ℤ◌, Bool, true, false, List, [],
  ◌∷◌, some, get_elem?, arith, Bool-cases,
}
use tetragon_kafka_adapter.Prelude.Every.{All}
use tetragon_kafka_adapter.Prelude.Bags.{count}
use tetragon_kafka_adapter.Kafka.Writer.{Message, Writer, close}
use tetragon_kafka_adapter.Kafka.Worker.{Worker, WorkerEvent, channel_closed}
use tetragon_kafka_adapter.Kafka.Pool.{
  Pool, start_pool, close_pool, turn, take_first, Step, closes, takes, finds_closed, Reach, here,
  next,
}
use tetragon_kafka_adapter.Kafka.Pool.Drained.{Returned, flushed_total, Reach-flushed}
use tetragon_kafka_adapter.Kafka.Pool.Progress.{
  IsShut, unfinished, turn_ends, take_shortens, stop_ends,
}

module _ {E : Type 0} where
  -- A worker that still runs, if there is one.
  pub some_running :
      (ws : List (Worker (Message E)))
      → All Returned ws
        ⊎ ((i : ℕ) × (w : Worker (Message E)) × (get_elem? ws i ≡ some w) × (w.running ≡ true))
  some_running [] = inl tt
  some_running (w ∷ ws) = elim (Bool-cases w.running) [
    | inl r ↦ inr (0, w, refl, r)
    | inr r ↦ elim (some_running ws) [
      | inl rs ↦ inl (r, rs)
      | inr (i, v, h, k) ↦ inr (suc i, v, h, k)
    ]
  ]

  abbrev Ending : ℤ → Pool E → Type 0
  Ending max s =
      (t : Pool E) × Reach max false s t × All Returned t.workers × (t.accepted ≡ s.accepted)

  Reach-append :
      {max : ℤ} {cancels : Bool} {s t u : Pool E}
      → Reach max cancels s t
      → Reach max cancels t u
      → Reach max cancels s u
  Reach-append r here = r
  Reach-append r (next q x) = next (Reach-append r q) x

  ends_after :
      {max : ℤ} {s t : Pool E}
      → Step max false s t
      → t.accepted ≡ s.accepted
      → Ending max t
      → Ending max s
  ends_after x e (u, r, done, a) = (u, Reach-append (next here x) r, done, a ∙ e)

  accepted_kept :
      (max : ℤ) (s : Pool E) (i : ℕ) (w : Worker (Message E)) (m : Message E)
      (rest : List (Message E))
      → (take_first max s i w m rest).accepted ≡ s.accepted
  unfolding take_first turn
  accepted_kept max s i w m rest = refl

  pub accepted-turn :
      (max : ℤ) (s : Pool E) (i : ℕ) (w : Worker (Message E)) (e : WorkerEvent (Message E))
      → (turn max s i w e).accepted ≡ s.accepted
  unfolding turn
  accepted-turn max s i w e = refl

  abbrev Forward : ℤ → Pool E → Type 0
  Forward max s =
      (t : Pool E) × Step max false s t
      × (t.accepted ≡ s.accepted)
      × IsShut t
      × (1 + unfinished t ≡ unfinished s)

  -- The running worker takes the first message, or finds the channel closed and empty.
  forward :
      (max : ℤ) (s : Pool E) (i : ℕ) (w : Worker (Message E)) (waiting : List (Message E))
      → s.writer.message_ch.items ≡ waiting
      → get_elem? s.workers i ≡ some w
      → w.running ≡ true
      → IsShut s
      → Forward max s
  forward max s i w [] q h r c =
      let (c', e) = turn_ends max s i w channel_closed h r (stop_ends max w r).1 c in
      (
        turn max s i w channel_closed,
        finds_closed s i w h r c q,
        accepted-turn max s i w channel_closed,
        c',
        e,
      )
  forward max s i w (m ∷ rest) q h r c =
      let (c', e) = take_shortens max s i w m rest h r q c in
      (take_first max s i w m rest, takes s i w m rest h r q, accepted_kept max s i w m rest, c', e)

  closed_ends : (max : ℤ) (k : ℕ) (s : Pool E) → IsShut s → unfinished s ≤ k → Ending max s
  closed_ends max zero s c l = elim (some_running s.workers) [
    | inl done ↦ (s, here, done, refl)
    | inr (i, w, h, r) ↦
        let (t, x, a, c', e) = forward max s i w s.writer.message_ch.items refl h r c in
        absurd (omega (arith, e))
  ]
  closed_ends max (suc k) s c l = elim (some_running s.workers) [
    | inl done ↦ (s, here, done, refl)
    | inr (i, w, h, r) ↦
        let (t, x, a, c', e) = forward max s i w s.writer.message_ch.items refl h r c in
        ends_after x a (closed_ends max k t c' (omega (arith, e)))
  ]

  shut_close : (s : Pool E) → (close_pool s).accepted ≡ s.accepted
  unfolding close_pool
  shut_close s = refl

  IsShut-close_pool : (s : Pool E) → s.writer.closed_once ≡ false → IsShut (close_pool s)
  unfolding close_pool close
  IsShut-close_pool s h = ground arith

  -- From wherever a run without cancellation has come before the first Close, with max_messages and
  -- the number of workers at least 1 and an empty channel at the start: Close can be followed by a
  -- run without further accepted messages in which every worker returns and the channel is emptied,
  -- and the messages that Write accepted before the Close are those of the flushed batches.
  pub close_pool-flushes :
      (p : Message E → Bool) (max : ℤ) (w : Writer E) (s : Pool E)
      → pos 1 ≤ℤ max
      → pos 1 ≤ℤ w.workers
      → w.message_ch.items ≡ []
      → Reach max false (start_pool w) s
      → s.writer.closed_once ≡ false
      → (t : Pool E) × Reach max false (close_pool s) t
        × All Returned t.workers
        × (t.accepted ≡ s.accepted)
        × (t.writer.message_ch.items ≡ [])
        × (count p s.accepted ≡ flushed_total p t.workers)
  close_pool-flushes p max w s l n e r o =
      let (t, q, done, a) =
        closed_ends max (unfinished (close_pool s)) (close_pool s) (IsShut-close_pool s o)
          (omega arith) in
      let (_, empty, whole) =
        Reach-flushed p max w t l n e (Reach-append (next r (closes s)) q) done in
      let same : t.accepted ≡ s.accepted = a ∙ shut_close s in
      (t, q, done, same, empty, rw same at whole)
