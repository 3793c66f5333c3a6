-- ===== src/Kafka/Pool/Contents.antt =====
-- Which messages the writer's channel and its workers hold: internal/kafka/writer.go.
use mathlib.Core.Path.{subst}
use tetragon_kafka_adapter.Prelude.{
  ℕ, ℤ, pos_part, ◌≡◌, sym, Bool, true, List, [], ◌∷◌, some, get_elem?, arith,
}
use tetragon_kafka_adapter.Prelude.Every.{
  All, get-All, set-All, replicate-All, append-All, append-All_parts,
}
use tetragon_kafka_adapter.Kafka.Writer.{Message, Writer, write, close}
use tetragon_kafka_adapter.Kafka.Worker.{
  Worker, WorkerEvent, context_done, channel_closed, flush_tick, receives, metrics_tick, start,
  worker_step,
}
use tetragon_kafka_adapter.Kafka.Worker.Batches.{concat, handled, taken, handled-step}
use tetragon_kafka_adapter.Kafka.Pool.{
  Pool, start_pool, write_pool, close_pool, turn, take_first, Step, writes, closes, cancelled,
  ticks, measures, takes, finds_closed, Reach, here, next,
}

module _ {E : Type 0} (P : Message E → Type 0) where
  abbrev Handles : Worker (Message E) → Type 0
  Handles w = All P (handled w)

  pub record Holds (s : Pool E) : Type 0 where
    pub waiting : All P s.writer.message_ch.items
    pub gathered : All Handles s.workers

  turn-Holds :
      (max : ℤ) (s : Pool E) (i : ℕ) (w : Worker (Message E)) (e : WorkerEvent (Message E))
      → get_elem? s.workers i ≡ some w
      → All P (taken w e)
      → Holds s
      → Holds (turn max s i w e)
  unfolding turn
  turn-Holds max s i w e h t a = record {
    waiting = a.waiting;
    gathered = set-All Handles s.workers i (worker_step max w e) a.gathered (
        subst (All P) (sym (handled-step max w e))
          (append-All P (handled w) (taken w e) (get-All Handles s.workers i w a.gathered h) t));
  }

  take-Holds :
      (max : ℤ) (s : Pool E) (i : ℕ) (w : Worker (Message E)) (m : Message E)
      (rest : List (Message E))
      → get_elem? s.workers i ≡ some w
      → w.running ≡ true
      → s.writer.message_ch.items ≡ m ∷ rest
      → Holds s
      → Holds (take_first max s i w m rest)
  unfolding take_first turn
  take-Holds max s i w m rest h r q a =
      let all = subst (All P) q a.waiting in
      let t : All P (taken w (receives m)) = rw r (all.0, tt) in
      let turned = turn-Holds max s i w (receives m) h t a in
      record { waiting = all.1; gathered = turned.gathered }

  -- The accepted messages before a call of Write, and the one that it adds to the channel.
  write-Holds :
      (s : Pool E) (m : Message E)
      → Holds s
      → All P (write_pool s m).accepted
      → All P s.accepted × Holds (write_pool s m)
  unfolding write_pool write
  write-Holds s m a all = ground (
    arith,
    append-All_parts P s.accepted (m ∷ []),
    append-All P s.writer.message_ch.items (m ∷ []),
  )

  close-Holds : (s : Pool E) → Holds s → Holds (close_pool s)
  unfolding close_pool close
  close-Holds s a = ground arith

  Step-Holds :
      {max : ℤ} {cancels : Bool} {s t : Pool E}
      → Step max cancels s t
      → Holds s
      → All P t.accepted
      → Holds t
  Step-Holds (writes s m o) a all = (write-Holds s m a all).1
  Step-Holds (closes s) a all = close-Holds s a
  Step-Holds {max} (cancelled s i w h r c) a all = turn-Holds max s i w context_done h tt a
  Step-Holds {max} (ticks s i w h r) a all = turn-Holds max s i w flush_tick h tt a
  Step-Holds {max} (measures s i w n h r) a all = turn-Holds max s i w (metrics_tick n) h tt a
  Step-Holds {max} (takes s i w m rest h r q) a all = take-Holds max s i w m rest h r q a
  Step-Holds {max} (finds_closed s i w h r c q) a all = turn-Holds max s i w channel_closed h tt a

  write_pool-before :
      (s : Pool E) (m : Message E) → All P (write_pool s m).accepted → All P s.accepted
  unfolding write_pool
  write_pool-before s m all = ground (arith, append-All_parts P s.accepted (m ∷ []))

  Step-before :
      {max : ℤ} {cancels : Bool} {s t : Pool E}
      → Step max cancels s t
      → All P t.accepted
      → All P s.accepted
  unfolding close_pool turn take_first
  Step-before (writes s m o) all = write_pool-before s m all
  Step-before (closes s) all = all
  Step-before (cancelled s i w h r c) all = all
  Step-before (ticks s i w h r) all = all
  Step-before (measures s i w n h r) all = all
  Step-before (takes s i w m rest h r q) all = all
  Step-before (finds_closed s i w h r c q) all = all

  start-Holds : (w : Writer E) → w.message_ch.items ≡ [] → Holds (start_pool w)
  unfolding start_pool start handled concat
  start-Holds w h = record {
    waiting = rw h tt;
    gathered = replicate-All Handles (pos_part w.workers) start tt;
  }

  -- From a start with an empty channel, what holds of every message that the writer has accepted
  -- holds of those in the channel and of those that some worker has flushed or gathers.
  pub Reach-Holds :
      {max : ℤ} {cancels : Bool} (w : Writer E) (t : Pool E)
      → w.message_ch.items ≡ []
      → Reach max cancels (start_pool w) t
      → All P t.accepted
      → Holds t
  Reach-Holds w t h here all = start-Holds w h
  Reach-Holds w t h (next {t = s} r x) all =
      let earlier = Step-before x all in Step-Holds x (Reach-Holds w s h r earlier) all
