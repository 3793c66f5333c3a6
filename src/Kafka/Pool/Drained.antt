-- ===== src/Kafka/Pool/Drained.antt =====
-- Close of the writer of internal/kafka/writer.go and the messages that are left.
use mathlib.Core.List.{append-nil}
use tetragon_kafka_adapter.Prelude.{
  ℕ, ◌+◌, ◌≤◌, ◌≡◌, ◌≢◌, refl, ◌∙◌, ◌⊎◌, inl, inr, ℤ, pos, pos_part, ◌≤ℤ◌, Bool, true, false, List,
  [], ◌∷◌, ◌++◌, some, length, length-set, length-replicate, get_elem?, arith,
}
use tetragon_kafka_adapter.Prelude.Every.{All, get-All, set-All, replicate-All, map-All}
use tetragon_kafka_adapter.Channel.{Channel}
use tetragon_kafka_adapter.Prelude.Bags.{count}
use tetragon_kafka_adapter.Kafka.Writer.{Message, Writer, write, close}
use tetragon_kafka_adapter.Kafka.Worker.{
  Worker, WorkerEvent, channel_closed, flush_tick, receives, metrics_tick, start, worker_step,
}
use tetragon_kafka_adapter.Kafka.Worker.Batches.{
  concat, handled, IsSound, step-IsSound, start-IsSound,
}
use tetragon_kafka_adapter.Kafka.Pool.{
  Pool, start_pool, write_pool, close_pool, turn, take_first, Step, writes, closes, cancelled,
  ticks, measures, takes, finds_closed, Reach, here, next,
}
use tetragon_kafka_adapter.Kafka.Pool.Delivered.{total, Reach-count}

module _ {E : Type 0} where
  -- A worker that has returned has found the channel closed and empty.
  abbrev IsServed : Channel (Message E) → Worker (Message E) → Type 0
  IsServed ch w = (w.running ≡ true) ⊎ ((ch.closed ≡ true) × (ch.items ≡ []))

  record IsKept (max : ℤ) (n : ℕ) (s : Pool E) : Type 0 where
    sound : All (IsSound max) s.workers
    served : All (IsServed s.writer.message_ch) s.workers
    workers : length s.workers ≡ n

  pub tick_runs :
      (max : ℤ) (w : Worker (Message E))
      → w.running ≡ true
      → (worker_step max w flush_tick).running ≡ true
  unfolding worker_step
  tick_runs max w r = ground arith

  pub metrics_runs :
      (max : ℤ) (w : Worker (Message E)) (n : ℕ)
      → w.running ≡ true
      → (worker_step max w (metrics_tick n)).running ≡ true
  unfolding worker_step
  metrics_runs max w n r = ground arith

  pub receive_runs :
      (max : ℤ) (w : Worker (Message E)) (m : Message E)
      → w.running ≡ true
      → (worker_step max w (receives m)).running ≡ true
  unfolding worker_step
  receive_runs max w m r = ground arith

  -- A turn of worker i after which it is served by the channel as it stands.
  turn-IsKept :
      (max : ℤ) (n : ℕ) (s : Pool E) (i : ℕ) (w : Worker (Message E)) (e : WorkerEvent (Message E))
      → pos 1 ≤ℤ max
      → IsKept max n s
      → get_elem? s.workers i ≡ some w
      → IsServed s.writer.message_ch (worker_step max w e)
      → IsKept max n (turn max s i w e)
  unfolding turn
  turn-IsKept max n s i w e l k h v = record {
    sound =
        set-All (IsSound max) s.workers i (worker_step max w e) k.sound
          (step-IsSound max w e l (get-All (IsSound max) s.workers i w k.sound h));
    served = set-All (IsServed s.writer.message_ch) s.workers i (worker_step max w e) k.served v;
    workers = length-set s.workers i (worker_step max w e) ∙ k.workers;
  }

  channel-IsKept :
      (max : ℤ) (n : ℕ) (s : Pool E) (w : Writer E) (ms : List (Message E))
      → ((v : Worker (Message E)) → IsServed s.writer.message_ch v → IsServed w.message_ch v)
      → IsKept max n s
      → IsKept max n (record s { writer = w; accepted = ms })
  channel-IsKept max n s w ms f k = record {
    sound = k.sound;
    served = map-All (IsServed s.writer.message_ch) (IsServed w.message_ch) s.workers f k.served;
    workers = k.workers;
  }

  -- A channel that is open or holds a message has no worker that has returned.
  still-IsServed :
      (s : Pool E) (w : Writer E)
      → (s.writer.message_ch.closed ≡ true → s.writer.message_ch.items ≢ [])
      → (v : Worker (Message E)) → IsServed s.writer.message_ch v
      → IsServed w.message_ch v
  still-IsServed s w busy v (inl running) = inl running
  still-IsServed s w busy v (inr (c, i)) = absurd (busy c i)

  write-IsKept :
      (max : ℤ) (n : ℕ) (s : Pool E) (m : Message E)
      → s.writer.message_ch.closed ≡ false
      → IsKept max n s
      → IsKept max n (write_pool s m)
  unfolding write_pool
  write-IsKept max n s m o k =
      channel-IsKept max n s _ _ (still-IsServed s (write s.writer m).1 (λ c. absurd (cc (c, o)))) k

  closed-IsServed :
      (w : Writer E) (v : Worker (Message E))
      → IsServed w.message_ch v
      → IsServed (close w).message_ch v
  unfolding close
  closed-IsServed w v h = ground arith

  close-IsKept : (max : ℤ) (n : ℕ) (s : Pool E) → IsKept max n s → IsKept max n (close_pool s)
  unfolding close_pool
  close-IsKept max n s k =
      channel-IsKept max n s (close s.writer) s.accepted (closed-IsServed s.writer) k

  take-IsKept :
      (max : ℤ) (n : ℕ) (s : Pool E) (i : ℕ) (w : Worker (Message E)) (m : Message E)
      (rest : List (Message E))
      → pos 1 ≤ℤ max
      → IsKept max n s
      → get_elem? s.workers i ≡ some w
      → w.running ≡ true
      → s.writer.message_ch.items ≡ m ∷ rest
      → IsKept max n (take_first max s i w m rest)
  unfolding take_first turn
  take-IsKept max n s i w m rest l k h r q =
      let left : Writer E = record (s.writer) {
        message_ch = record (s.writer.message_ch) { items = rest };
      } in
      channel-IsKept max n (turn max s i w (receives m)) left s.accepted
        (still-IsServed s left (λ c e. cc (q, e)))
        (turn-IsKept max n s i w (receives m) l k h (inl (receive_runs max w m r)))

  Step-IsKept :
      {max : ℤ} {cancels : Bool} {s t : Pool E} (n : ℕ)
      → pos 1 ≤ℤ max
      → cancels ≡ false
      → Step max cancels s t
      → IsKept max n s
      → IsKept max n t
  Step-IsKept {max} n l o (writes s m c) k = write-IsKept max n s m c k
  Step-IsKept {max} n l o (closes s) k = close-IsKept max n s k
  Step-IsKept {max} n l o (cancelled s i w h r c) k = absurd (cc (o, c))
  Step-IsKept {max} n l o (ticks s i w h r) k =
      turn-IsKept max n s i w flush_tick l k h (inl (tick_runs max w r))
  Step-IsKept {max} n l o (measures s i w d h r) k =
      turn-IsKept max n s i w (metrics_tick d) l k h (inl (metrics_runs max w d r))
  Step-IsKept {max} n l o (takes s i w m rest h r q) k = take-IsKept max n s i w m rest l k h r q
  Step-IsKept {max} n l o (finds_closed s i w h r c q) k =
      turn-IsKept max n s i w channel_closed l k h (inr (c, q))

  Reach-IsKept :
      {max : ℤ} {s t : Pool E} (n : ℕ)
      → pos 1 ≤ℤ max
      → IsKept max n s
      → Reach max false s t
      → IsKept max n t
  Reach-IsKept n l k here = k
  Reach-IsKept n l k (next r x) = Step-IsKept n l refl x (Reach-IsKept n l k r)

  start-IsKept :
      (max : ℤ) (w : Writer E) → pos 1 ≤ℤ max → IsKept max (pos_part w.workers) (start_pool w)
  unfolding start_pool start
  start-IsKept max w l = record {
    sound = replicate-All (IsSound max) (pos_part w.workers) start (start-IsSound max l);
    served = replicate-All (IsServed w.message_ch) (pos_part w.workers) start (inl refl);
    workers = length-replicate (pos_part w.workers) start;
  }

  abbrev pub Returned : Worker (Message E) → Type 0
  Returned v = v.running ≡ false

  -- How many messages that pass the test stand in the batches that the workers have flushed.
  pub flushed_total : (Message E → Bool) → List (Worker (Message E)) → ℕ
  flushed_total p [] = 0
  flushed_total p (v ∷ vs) = count p (concat v.flushed) + flushed_total p vs

  Returned-total :
      (p : Message E → Bool) (max : ℤ) (vs : List (Worker (Message E)))
      → All (IsSound max) vs
      → All Returned vs
      → total p vs ≡ flushed_total p vs
  unfolding total flushed_total handled
  Returned-total p max [] h r = refl
  Returned-total p max (v ∷ vs) h r =
      let empty = h.0.stopped r.0 in
      let whole : count p (concat v.flushed ++ v.batch) ≡ count p (concat v.flushed) =
        rw (empty, append-nil (concat v.flushed)) in
      omega (arith, whole, Returned-total p max vs h.1 r.1)

  Returned-empty :
      (ch : Channel (Message E)) (vs : List (Worker (Message E)))
      → 1 ≤ length vs
      → All (IsServed ch) vs
      → All Returned vs
      → (ch.closed ≡ true) × (ch.items ≡ [])
  Returned-empty ch [] l h r = absurd (omega arith)
  Returned-empty ch (v ∷ vs) l h r = elim h.0 [
    | inl running ↦ absurd (cc (running, r.0))
    | inr empty ↦ empty
  ]

  -- From a start with an empty channel, max_messages and the number of workers at least 1, if the
  -- context is never cancelled and every worker has returned: the channel is closed and empty, and
  -- the messages that Write accepted are those of the flushed batches, each as often as it was
  -- accepted.
  pub Reach-flushed :
      (p : Message E → Bool) (max : ℤ) (w : Writer E) (s : Pool E)
      → pos 1 ≤ℤ max
      → pos 1 ≤ℤ w.workers
      → w.message_ch.items ≡ []
      → Reach max false (start_pool w) s
      → All Returned s.workers
      → (s.writer.message_ch.closed ≡ true)
        × (s.writer.message_ch.items ≡ [])
        × (count p s.accepted ≡ flushed_total p s.workers)
  unfolding count
  Reach-flushed p max w s l n e r done =
      let k = Reach-IsKept (pos_part w.workers) l (start-IsKept max w l) r in
      let (closed, empty) =
        Returned-empty s.writer.message_ch s.workers (ground (arith, k.workers)) k.served done in
      let whole = Reach-count p max false w s e r in
      let flushed = Returned-total p max s.workers k.sound done in
      let none_left : count p s.writer.message_ch.items ≡ 0 = rw empty refl in
      (closed, empty, omega (arith, whole, flushed, none_left))
