-- ===== src/Kafka/Pool.antt =====
-- Start, Write, Close and the workers of internal/kafka/writer.go together: several workers take
-- from one channel while others write to it. A run is a sequence of steps in any order.
pub mod Delivered
pub mod Drained
pub mod Progress
pub mod Ending
pub mod Contents
use tetragon_kafka_adapter.Prelude.{
  ℕ, ℤ, pos, pos_part, ◌≡◌, Bool, true, false, List, [], ◌∷◌, ◌++◌, some, get_elem?, set, replicate,
}
use tetragon_kafka_adapter.Kafka.Writer.{
  Message, Writer, WriteResult, written, queue_full, panics, write, close,
}
use tetragon_kafka_adapter.Kafka.Worker.{
  Worker, WorkerEvent, context_done, channel_closed, flush_tick, receives, metrics_tick, start,
  worker_step,
}

module _ (E : Type 0) where
  pub record Pool : Type 0 where
    pub writer : Writer E
    pub workers : List (Worker (Message E))
    -- The messages for which Write returned nil, oldest first: kept for the statements alone.
    pub accepted : List (Message E)

module _ {E : Type 0} where
  -- `for i := 0; i < w.workers; i++ { go w.worker(ctx, i) }`.
  unfoldable pub start_pool : Writer E → Pool E
  start_pool w = record {
    writer = w;
    workers = replicate (pos_part w.workers) start;
    accepted = [];
  }

  abbrev pub add_written : List (Message E) → Message E → WriteResult → List (Message E)
  add_written ms m written = ms ++ m ∷ []
  add_written ms m queue_full = ms
  add_written ms m panics = ms

  unfoldable pub write_pool : Pool E → Message E → Pool E
  write_pool s m =
      let (r, w, metrics) = write s.writer m in
      record s { writer = w; accepted = add_written s.accepted m r }

  unfoldable pub close_pool : Pool E → Pool E
  close_pool s = record s { writer = close s.writer }

  -- Worker i takes an event of its own: a ticker or the context.
  unfoldable pub turn : ℤ → Pool E → ℕ → Worker (Message E) → WorkerEvent (Message E) → Pool E
  turn max s i w e = record s { workers = set s.workers i (worker_step max w e) }

  -- Worker i receives the first message of the channel, which leaves `rest`.
  unfoldable pub take_first :
      ℤ → Pool E → ℕ → Worker (Message E) → Message E → List (Message E) → Pool E
  take_first max s i w m rest = record (turn max s i w (receives m)) {
    writer = record (s.writer) { message_ch = record (s.writer.message_ch) { items = rest } };
  }

  -- One step of some goroutine. `cancels` says whether the context may be cancelled. A write after
  -- Close panics and is no step.
  pub data Step (max : ℤ) (cancels : Bool) : Pool E → Pool E → Type 0 where
    writes :
        (s : Pool E) (m : Message E)
        → s.writer.message_ch.closed ≡ false
        → Step max cancels s (write_pool s m)
    closes : (s : Pool E) → Step max cancels s (close_pool s)
    cancelled :
        (s : Pool E) (i : ℕ) (w : Worker (Message E))
        → get_elem? s.workers i ≡ some w
        → w.running ≡ true
        → cancels ≡ true
        → Step max cancels s (turn max s i w context_done)
    ticks :
        (s : Pool E) (i : ℕ) (w : Worker (Message E))
        → get_elem? s.workers i ≡ some w
        → w.running ≡ true
        → Step max cancels s (turn max s i w flush_tick)
    measures :
        (s : Pool E) (i : ℕ) (w : Worker (Message E)) (n : ℕ)
        → get_elem? s.workers i ≡ some w
        → w.running ≡ true
        → Step max cancels s (turn max s i w (metrics_tick n))
    takes :
        (s : Pool E) (i : ℕ) (w : Worker (Message E)) (m : Message E) (rest : List (Message E))
        → get_elem? s.workers i ≡ some w
        → w.running ≡ true
        → s.writer.message_ch.items ≡ m ∷ rest
        → Step max cancels s (take_first max s i w m rest)
    finds_closed :
        (s : Pool E) (i : ℕ) (w : Worker (Message E))
        → get_elem? s.workers i ≡ some w
        → w.running ≡ true
        → s.writer.message_ch.closed ≡ true
        → s.writer.message_ch.items ≡ []
        → Step max cancels s (turn max s i w channel_closed)

  pub data Reach (max : ℤ) (cancels : Bool) (s : Pool E) : Pool E → Type 0 where
    here : Reach max cancels s s
    next : {t u : Pool E} → Reach max cancels s t → Step max cancels t u → Reach max cancels s u
