-- ===== src/Metrics.antt =====
-- The Prometheus metrics of internal/metrics/prometheus.go as the modelled calls update
-- them: a constructor for each increment or assignment, with its labels. The histograms, queue_depth
-- and queue_capacity (which Queue.Gauge has), the memory statistics (which Metrics.Memory has),
-- kafka_batch_error_rate and grpc_stream_uptime_seconds are not among them.
pub mod Memory
pub mod Declared
pub mod Registry
use tetragon_kafka_adapter.Prelude.{ℕ, Text}

pub data Metric : Type 0 where
  events_in : Text → Metric
  events_out : Text → Text → Metric
  grpc_events_received : Metric
  drops : Text → Metric
  sampled : Text → Metric
  kafka_write_bytes : Text → ℕ → Metric
  kafka_write_messages : Text → Metric
  dlq_events : Text → Metric
  dlq_events_bytes : ℕ → Metric
  dlq_write_failures : Metric
  kafka_errors : Text → Text → Metric
  normalize_errors : Text → Metric
  grpc_errors : Text → Metric
  grpc_reconnect : Metric
  topic_create : Text → Metric
  grpc_connection_status : ℕ → Metric
  kafka_producer_connected : ℕ → Metric
  kafka_writer_queue_depth : ℕ → Metric
