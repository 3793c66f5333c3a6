-- ===== src/Kafka/Worker.antt =====
-- worker of internal/kafka/writer.go: the loop that gathers messages into batches. The cases of its
-- select come as events, in the order in which Go takes them. The batch's storage, which a flush
-- keeps or renews, is not modelled: flushBatch has returned before it is used again.
pub mod Batches
use tetragon_kafka_adapter.Prelude.{
  ℕ, ℤ, pos, Bool, true, false, List, [], ◌∷◌, ◌++◌, leb_ℤ, length, if◌then◌else◌,
}
use tetragon_kafka_adapter.Metrics.{Metric, kafka_writer_queue_depth}

pub data WorkerEvent (M : Type 0) : Type 0 where
  -- `ctx.Done()`, `messageCh` closed and drained, the flush ticker, and the metrics ticker with the
  -- number of messages that it finds in the channel.
  context_done channel_closed flush_tick : WorkerEvent M
  receives : M → WorkerEvent M
  metrics_tick : ℕ → WorkerEvent M

pub record Worker (M : Type 0) : Type 0 where
  pub batch : List M
  -- The calls of flushBatch so far, oldest first.
  pub flushed : List (List M)
  pub running : Bool
  pub metrics : List Metric

module _ {M : Type 0} where
  unfoldable pub start : Worker M
  start = record { batch = []; flushed = []; running = true; metrics = [] }

  -- `if len(batch) > 0 { w.flushBatch(ctx, batch) … batch = batch[:0] }`.
  abbrev flush_waiting : Worker M → List M → Worker M
  flush_waiting w [] = w
  flush_waiting w (m ∷ ms) = record w { batch = []; flushed = w.flushed ++ (m ∷ ms) ∷ [] }

  -- The batch goes with the goroutine.
  stop : Worker M → Worker M
  stop w =
      let w' = flush_waiting w w.batch in
      record w' { running = false; metrics = w'.metrics ++ kafka_writer_queue_depth 0 ∷ [] }

  handle : ℤ → Worker M → WorkerEvent M → Worker M
  unfolding stop
  handle max w context_done = stop w
  handle max w channel_closed = stop w
  handle max w (receives m) =
      let batch = w.batch ++ m ∷ [] in
      if leb_ℤ max (pos (length batch))
      then record w { batch = []; flushed = w.flushed ++ batch ∷ [] }
      else record w { batch = batch }
  handle max w flush_tick = flush_waiting w w.batch
  handle max w (metrics_tick n) = record w {
    metrics = w.metrics ++ kafka_writer_queue_depth n ∷ [];
  }

  -- The loop takes no event once it has returned.
  unfoldable pub worker_step : ℤ → Worker M → WorkerEvent M → Worker M
  unfolding handle
  worker_step max w e = if w.running then handle max w e else w

  unfoldable pub worker_run : ℤ → Worker M → List (WorkerEvent M) → Worker M
  worker_run max w [] = w
  worker_run max w (e ∷ es) = worker_run max (worker_step max w e) es
