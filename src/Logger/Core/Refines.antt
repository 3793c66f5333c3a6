-- ===== src/Logger/Core/Refines.antt =====
-- The worker of internal/logger/kafka_core.go against the one of internal/kafka/writer.go.
use tetragon_kafka_adapter.Prelude.{◌≡◌, refl, ◌∙◌, ap, pos, List, [], ◌∷◌, map, Text, arith}
use tetragon_kafka_adapter.Kafka.Worker.{
  WorkerEvent, context_done, channel_closed, flush_tick, receives, Worker, worker_step, worker_run,
}
use tetragon_kafka_adapter.Logger.Core.{
  LogWorker, LogEvent, log_done, log_closed, log_tick, log_receives, log_worker,
}

-- The writer's worker without its metrics.
abbrev pub forget_metrics : Worker Text → LogWorker
forget_metrics w = record { batch = w.batch; flushed = w.flushed; running = w.running }

abbrev pub as_event : LogEvent → WorkerEvent Text
as_event log_done = context_done
as_event log_closed = channel_closed
as_event log_tick = flush_tick
as_event (log_receives d) = receives d

unfoldable log_run : LogWorker → List LogEvent → LogWorker
log_run w [] = w
log_run w (e ∷ es) = log_run (log_worker w e) es

pub log_worker-forget :
    (w : Worker Text) (e : LogEvent)
    → log_worker (forget_metrics w) e ≡ forget_metrics (worker_step (pos 100) w (as_event e))
unfolding worker_step log_worker
log_worker-forget w (log_receives d) = ground arith
log_worker-forget w e = ground arith

-- On any events, logWorker does what the writer's worker does with max_messages 100, its metrics
-- left out: the same batches are flushed and gathered, and both return at the same event.
log_run-forget :
    (w : Worker Text) (es : List LogEvent)
    → log_run (forget_metrics w) es ≡ forget_metrics (worker_run (pos 100) w (map as_event es))
unfolding log_run worker_run
log_run-forget w [] = refl
log_run-forget w (e ∷ es) =
    ap (λ v. log_run v es) (log_worker-forget w e)
    ∙ log_run-forget (worker_step (pos 100) w (as_event e)) es
