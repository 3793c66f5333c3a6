-- ===== src/Kafka/Pool/Progress.antt =====
-- After Close of the writer of internal/kafka/writer.go: how many turns its workers still make.
use tetragon_kafka_adapter.Prelude.{
  ℕ, zero, suc, ◌+◌, ◌≡◌, ap, length-append, ℤ, Bool, true, false, List, [], ◌∷◌, some, length,
  get_elem?, set, if◌then◌else◌, arith,
}
use tetragon_kafka_adapter.Kafka.Writer.{Message, write, close}
use tetragon_kafka_adapter.Kafka.Worker.{
  Worker, WorkerEvent, context_done, channel_closed, flush_tick, receives, metrics_tick,
  worker_step,
}
use tetragon_kafka_adapter.Kafka.Pool.{
  Pool, write_pool, close_pool, turn, take_first, Step, writes, closes, cancelled, ticks, measures,
  takes, finds_closed, Reach, here, next,
}
use tetragon_kafka_adapter.Kafka.Pool.Drained.{tick_runs, metrics_runs, receive_runs}

module _ {E : Type 0} where
  unfoldable pub running_count : List (Worker (Message E)) → ℕ
  running_count [] = 0
  running_count (w ∷ ws) = let rest = running_count ws in if w.running then suc rest else rest

  -- The messages that still wait in the channel, and the workers that still run.
  unfoldable pub unfinished : Pool E → ℕ
  unfinished s = length s.writer.message_ch.items + running_count s.workers

  running_count-set :
      (ws : List (Worker (Message E))) (i : ℕ) (w w' : Worker (Message E))
      → get_elem? ws i ≡ some w
      → w.running ≡ true
      → running_count ws
        ≡ (if w'.running then running_count (set ws i w') else suc (running_count (set ws i w')))
  unfolding running_count
  running_count-set [] i w w' h r = cc
  running_count-set (v ∷ ws) zero w w' h r = ground arith
  running_count-set (v ∷ ws) (suc i) w w' h r = ground (arith, running_count-set ws i w w' h r)

  -- Steps that take a message or end a worker; the others may repeat without end.
  unfoldable pub advance : {max : ℤ} {cancels : Bool} {s t : Pool E} → Step max cancels s t → ℕ
  advance (writes s m o) = 0
  advance (closes s) = 0
  advance (cancelled s i w h r c) = 1
  advance (ticks s i w h r) = 0
  advance (measures s i w n h r) = 0
  advance (takes s i w m rest h r q) = 1
  advance (finds_closed s i w h r c q) = 1

  pub advances : {max : ℤ} {cancels : Bool} {s t : Pool E} → Reach max cancels s t → ℕ
  advances here = 0
  advances (next r x) = advance x + advances r

  pub stop_ends :
      (max : ℤ) (w : Worker (Message E))
      → w.running ≡ true
      → ((worker_step max w context_done).running ≡ false)
        × ((worker_step max w channel_closed).running ≡ false)
  unfolding worker_step
  stop_ends max w r = (ground arith, ground arith)

  abbrev pub IsShut : Pool E → Type 0
  IsShut s = s.writer.message_ch.closed ≡ true

  unfinished-turn_stays :
      (max : ℤ) (s : Pool E) (i : ℕ) (w : Worker (Message E)) (e : WorkerEvent (Message E))
      → get_elem? s.workers i ≡ some w
      → w.running ≡ true
      → (worker_step max w e).running ≡ true
      → unfinished (turn max s i w e) ≡ unfinished s
  unfolding turn unfinished
  unfinished-turn_stays max s i w e h r k =
      ground (arith, running_count-set s.workers i w (worker_step max w e) h r)

  unfinished-turn_ends :
      (max : ℤ) (s : Pool E) (i : ℕ) (w : Worker (Message E)) (e : WorkerEvent (Message E))
      → get_elem? s.workers i ≡ some w
      → w.running ≡ true
      → (worker_step max w e).running ≡ false
      → 1 + unfinished (turn max s i w e) ≡ unfinished s
  unfolding turn unfinished
  unfinished-turn_ends max s i w e h r k =
      ground (arith, running_count-set s.workers i w (worker_step max w e) h r)

  unfinished-take_first :
      (max : ℤ) (s : Pool E) (i : ℕ) (w : Worker (Message E)) (m : Message E)
      (rest : List (Message E))
      → get_elem? s.workers i ≡ some w
      → w.running ≡ true
      → s.writer.message_ch.items ≡ m ∷ rest
      → 1 + unfinished (take_first max s i w m rest) ≡ unfinished s
  unfolding take_first turn unfinished
  unfinished-take_first max s i w m rest h r q =
      let k = receive_runs max w m r in
      ground (arith, running_count-set s.workers i w (worker_step max w (receives m)) h r)

  unfinished-write_pool :
      (s : Pool E) (m : Message E)
      → (write_pool s m).accepted ≡ s.accepted
      → unfinished (write_pool s m) ≡ unfinished s
  unfolding write_pool write unfinished
  unfinished-write_pool s m h = ground (arith, ap length h, length-append s.accepted (m ∷ []))

  unfinished-close_pool : (s : Pool E) → unfinished (close_pool s) ≡ unfinished s
  unfolding close_pool close unfinished
  unfinished-close_pool s = ground arith

  -- A step in which the writer accepts no message.
  pub Step-unfinished_open :
      {max : ℤ} {cancels : Bool} {s t : Pool E} (x : Step max cancels s t)
      → t.accepted ≡ s.accepted
      → advance x + unfinished t ≡ unfinished s
  unfolding advance
  Step-unfinished_open (writes s m o) a = omega (arith, unfinished-write_pool s m a)
  Step-unfinished_open (closes s) a = omega (arith, unfinished-close_pool s)
  Step-unfinished_open {max} (cancelled s i w h r q) a =
      unfinished-turn_ends max s i w context_done h r (stop_ends max w r).0
  Step-unfinished_open {max} (ticks s i w h r) a =
      omega (arith, unfinished-turn_stays max s i w flush_tick h r (tick_runs max w r))
  Step-unfinished_open {max} (measures s i w n h r) a =
      omega (arith, unfinished-turn_stays max s i w (metrics_tick n) h r (metrics_runs max w n r))
  Step-unfinished_open {max} (takes s i w m rest h r q) a =
      unfinished-take_first max s i w m rest h r q
  Step-unfinished_open {max} (finds_closed s i w h r d q) a =
      unfinished-turn_ends max s i w channel_closed h r (stop_ends max w r).1

  turn_stays :
      (max : ℤ) (s : Pool E) (i : ℕ) (w : Worker (Message E)) (e : WorkerEvent (Message E))
      → get_elem? s.workers i ≡ some w
      → w.running ≡ true
      → (worker_step max w e).running ≡ true
      → IsShut s
      → IsShut (turn max s i w e) × (unfinished (turn max s i w e) ≡ unfinished s)
  turn_stays max s i w e h r k c = ((unfold turn in c), unfinished-turn_stays max s i w e h r k)

  pub turn_ends :
      (max : ℤ) (s : Pool E) (i : ℕ) (w : Worker (Message E)) (e : WorkerEvent (Message E))
      → get_elem? s.workers i ≡ some w
      → w.running ≡ true
      → (worker_step max w e).running ≡ false
      → IsShut s
      → IsShut (turn max s i w e) × (1 + unfinished (turn max s i w e) ≡ unfinished s)
  turn_ends max s i w e h r k c = ((unfold turn in c), unfinished-turn_ends max s i w e h r k)

  pub take_shortens :
      (max : ℤ) (s : Pool E) (i : ℕ) (w : Worker (Message E)) (m : Message E)
      (rest : List (Message E))
      → get_elem? s.workers i ≡ some w
      → w.running ≡ true
      → s.writer.message_ch.items ≡ m ∷ rest
      → IsShut s
      → IsShut (take_first max s i w m rest)
        × (1 + unfinished (take_first max s i w m rest) ≡ unfinished s)
  unfolding take_first turn
  take_shortens max s i w m rest h r q c = (c, unfinished-take_first max s i w m rest h r q)

  close_keeps :
      (s : Pool E) → IsShut s → IsShut (close_pool s) × (unfinished (close_pool s) ≡ unfinished s)
  unfolding close_pool close unfinished
  close_keeps s c = ground arith

  Step-unfinished :
      {max : ℤ} {cancels : Bool} {s t : Pool E} (x : Step max cancels s t)
      → IsShut s
      → IsShut t × (advance x + unfinished t ≡ unfinished s)
  unfolding advance
  Step-unfinished (writes s m o) c = absurd (cc (c, o))
  Step-unfinished (closes s) c = let (c', e) = close_keeps s c in (c', omega (arith, e))
  Step-unfinished {max} (cancelled s i w h r q) c =
      turn_ends max s i w context_done h r (stop_ends max w r).0 c
  Step-unfinished {max} (ticks s i w h r) c =
      let (c', e) = turn_stays max s i w flush_tick h r (tick_runs max w r) c in
      (c', omega (arith, e))
  Step-unfinished {max} (measures s i w n h r) c =
      let (c', e) = turn_stays max s i w (metrics_tick n) h r (metrics_runs max w n r) c in
      (c', omega (arith, e))
  Step-unfinished {max} (takes s i w m rest h r q) c = take_shortens max s i w m rest h r q c
  Step-unfinished {max} (finds_closed s i w h r d q) c =
      turn_ends max s i w channel_closed h r (stop_ends max w r).1 c

  -- After Close every turn in which a worker takes a message or returns brings the end nearer by
  -- one, whatever comes between: in any run from a closed channel, the number of such turns and what
  -- is then unfinished (messages in the channel and workers that run) add up to what was unfinished.
  pub Reach-unfinished :
      {max : ℤ} {cancels : Bool} {s t : Pool E} (r : Reach max cancels s t)
      → s.writer.message_ch.closed ≡ true
      → (t.writer.message_ch.closed ≡ true) × (advances r + unfinished t ≡ unfinished s)
  unfolding advances
  Reach-unfinished here c = (c, omega arith)
  Reach-unfinished (next r x) c =
      let (c', e) = Reach-unfinished r c in
      let (c'', e') = Step-unfinished x c' in (c'', omega (arith, e, e'))
