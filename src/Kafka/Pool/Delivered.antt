-- ===== src/Kafka/Pool/Delivered.antt =====
-- The messages of the writer's channel and workers: internal/kafka/writer.go.
use tetragon_kafka_adapter.Prelude.{
  ℕ, zero, suc, ◌+◌, ◌≡◌, refl, ap, ℤ, pos_part, Bool, true, List, [], ◌∷◌, some, get_elem?, set,
  replicate, arith,
}
use tetragon_kafka_adapter.Prelude.Bags.{count, count-append}
use tetragon_kafka_adapter.Kafka.Writer.{Message, Writer, write, close}
use tetragon_kafka_adapter.Kafka.Worker.{
  Worker, WorkerEvent, context_done, channel_closed, flush_tick, receives, metrics_tick, start,
  worker_step,
}
use tetragon_kafka_adapter.Kafka.Worker.Batches.{concat, handled, taken, handled-step}
use tetragon_kafka_adapter.Kafka.Pool.{
  Pool, start_pool, write_pool, close_pool, turn, take_first, Step, writes, closes, cancelled,
  ticks, measures, takes, finds_closed, Reach, here, next,
}

module _ {E : Type 0} (p : Message E → Bool) where
  -- Over all workers: the messages that they have flushed or gather.
  unfoldable pub total : List (Worker (Message E)) → ℕ
  total [] = 0
  total (w ∷ ws) = count p (handled w) + total ws

  total-set :
      (ws : List (Worker (Message E))) (i : ℕ) (w w' : Worker (Message E))
      → get_elem? ws i ≡ some w
      → total (set ws i w') + count p (handled w) ≡ total ws + count p (handled w')
  unfolding total
  total-set [] i w w' h = cc
  total-set (v ∷ ws) zero w w' h = ground arith
  total-set (v ∷ ws) (suc i) w w' h = omega (arith, total-set ws i w w' h)

  total-turn :
      (max : ℤ) (s : Pool E) (i : ℕ) (w : Worker (Message E)) (e : WorkerEvent (Message E))
      → get_elem? s.workers i ≡ some w
      → total (turn max s i w e).workers ≡ total s.workers + count p (taken w e)
  unfolding turn
  total-turn max s i w e h = omega (
    arith,
    total-set s.workers i w (worker_step max w e) h,
    ap (count p) (handled-step max w e),
    count-append p (handled w) (taken w e),
  )

  abbrev Balanced : Pool E → Type 0
  Balanced s = count p s.accepted ≡ count p s.writer.message_ch.items + total s.workers

  write-Balanced : (s : Pool E) (m : Message E) → Balanced s → Balanced (write_pool s m)
  unfolding write_pool write
  write-Balanced s m b =
      ground (
        arith,
        count-append p s.accepted (m ∷ []),
        count-append p s.writer.message_ch.items (m ∷ []),
      )

  close-Balanced : (s : Pool E) → Balanced s → Balanced (close_pool s)
  unfolding close_pool close
  close-Balanced s b = ground arith

  -- A turn that takes no message.
  turn-Balanced :
      (max : ℤ) (s : Pool E) (i : ℕ) (w : Worker (Message E)) (e : WorkerEvent (Message E))
      → get_elem? s.workers i ≡ some w
      → count p (taken w e) ≡ 0
      → Balanced s
      → Balanced (turn max s i w e)
  turn-Balanced max s i w e h z b =
      let t = total-turn max s i w e h in unfold turn in omega (arith, b, t, z)

  take-Balanced :
      (max : ℤ) (s : Pool E) (i : ℕ) (w : Worker (Message E)) (m : Message E)
      (rest : List (Message E))
      → get_elem? s.workers i ≡ some w
      → w.running ≡ true
      → s.writer.message_ch.items ≡ m ∷ rest
      → Balanced s
      → Balanced (take_first max s i w m rest)
  unfolding take_first turn count
  take-Balanced max s i w m rest h r q b = ground (arith, total-turn max s i w (receives m) h)

  Step-Balanced :
      {max : ℤ} {cancels : Bool} {s t : Pool E} → Step max cancels s t → Balanced s → Balanced t
  unfolding count
  Step-Balanced (writes s m o) b = write-Balanced s m b
  Step-Balanced (closes s) b = close-Balanced s b
  Step-Balanced {max} (cancelled s i w e r c) b = turn-Balanced max s i w context_done e refl b
  Step-Balanced {max} (ticks s i w e r) b = turn-Balanced max s i w flush_tick e refl b
  Step-Balanced {max} (measures s i w n e r) b = turn-Balanced max s i w (metrics_tick n) e refl b
  Step-Balanced {max} (takes s i w m rest e r q) b = take-Balanced max s i w m rest e r q b
  Step-Balanced {max} (finds_closed s i w e r c q) b =
      turn-Balanced max s i w channel_closed e refl b

  Reach-Balanced :
      {max : ℤ} {cancels : Bool} {s t : Pool E} → Balanced s → Reach max cancels s t → Balanced t
  Reach-Balanced b here = b
  Reach-Balanced b (next r x) = Step-Balanced x (Reach-Balanced b r)

  total-replicate : (n : ℕ) → total (replicate n start) ≡ 0
  unfolding total count handled concat start
  total-replicate zero = refl
  total-replicate (suc n) = omega (arith, total-replicate n)

  start-Balanced : (w : Writer E) → w.message_ch.items ≡ [] → Balanced (start_pool w)
  unfolding start_pool count
  start-Balanced w h = ground (arith, total-replicate (pos_part w.workers))

  -- From a start with an empty channel, whatever the goroutines do and in any order, Close and
  -- cancellation included: the messages that Write has accepted are those in the channel and those
  -- that some worker has flushed or gathers, each as often as it was accepted.
  pub Reach-count :
      (max : ℤ) (cancels : Bool) (w : Writer E) (s : Pool E)
      → w.message_ch.items ≡ []
      → Reach max cancels (start_pool w) s
      → count p s.accepted ≡ count p s.writer.message_ch.items + total s.workers
  Reach-count max cancels w s h r = Reach-Balanced (start-Balanced w h) r
