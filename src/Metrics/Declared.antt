-- ===== src/Metrics/Declared.antt =====
-- The metrics that internal/metrics/prometheus.go declares.
-- Help texts and the bounds of the histograms' buckets are left out.
use tetragon_kafka_adapter.Prelude.{List, [], ◌∷◌, ◌++◌, Text, str}

pub data MetricKind : Type 0 where
  is_counter is_gauge is_histogram : MetricKind

pub record Declaration : Type 0 where
  pub kind : MetricKind
  pub name : Text
  pub labels : List Text

-- promauto's constructors, of one metric or of a vector with labels.
abbrev counter : Text → List Text → Declaration
counter name labels = record { kind = is_counter; name = name; labels = labels }

abbrev gauge : Text → List Text → Declaration
gauge name labels = record { kind = is_gauge; name = name; labels = labels }

abbrev histogram : Text → List Text → Declaration
histogram name labels = record { kind = is_histogram; name = name; labels = labels }

abbrev throughput_metrics : List Declaration
throughput_metrics =
    counter (str "events_in_total") (str "type" ∷ [])
    ∷ counter (str "events_out_total") (str "topic" ∷ str "status" ∷ [])
    ∷ counter (str "grpc_events_received_total") ([])
    ∷ []

abbrev queue_metrics : List Declaration
queue_metrics =
    gauge (str "queue_depth") ([])
    ∷ gauge (str "queue_capacity") ([])
    ∷ counter (str "drops_total") (str "reason" ∷ [])
    ∷ counter (str "sampled_total") (str "type" ∷ [])
    ∷ []

abbrev write_metrics : List Declaration
write_metrics =
    histogram (str "kafka_write_latency_ms") (str "topic" ∷ [])
    ∷ histogram (str "normalize_latency_ms") (str "type" ∷ [])
    ∷ counter (str "kafka_write_bytes_total") (str "topic" ∷ [])
    ∷ counter (str "kafka_write_messages_total") (str "topic" ∷ [])
    ∷ histogram (str "kafka_batch_size") (str "topic" ∷ [])
    ∷ []

abbrev dlq_metrics : List Declaration
dlq_metrics =
    counter (str "dlq_events_total") (str "reason" ∷ [])
    ∷ counter (str "dlq_events_bytes_total") ([])
    ∷ counter (str "dlq_write_failures_total") ([])
    ∷ []

abbrev error_metrics : List Declaration
error_metrics =
    counter (str "kafka_errors_total") (str "error_type" ∷ str "topic" ∷ [])
    ∷ counter (str "normalize_errors_total") (str "event_type" ∷ [])
    ∷ counter (str "grpc_errors_total") (str "error_type" ∷ [])
    ∷ []

abbrev connection_metrics : List Declaration
connection_metrics =
    counter (str "grpc_reconnect_total") ([])
    ∷ gauge (str "grpc_stream_uptime_seconds") ([])
    ∷ gauge (str "kafka_producer_connected") ([])
    ∷ []

abbrev topic_metrics : List Declaration
topic_metrics =
    counter (str "kafka_topic_create_total") (str "status" ∷ [])
    ∷ histogram (str "kafka_topic_create_duration_seconds") ([])
    ∷ []

abbrev latency_metrics : List Declaration
latency_metrics =
    histogram (str "queue_processing_latency_ms") ([])
    ∷ gauge (str "grpc_connection_status") ([])
    ∷ gauge (str "kafka_writer_queue_depth") ([])
    ∷ histogram (str "event_processing_latency_ms") (str "stage" ∷ [])
    ∷ histogram (str "grpc_reconnect_interval_seconds") ([])
    ∷ gauge (str "kafka_batch_error_rate") (str "topic" ∷ [])
    ∷ []

abbrev memory_metrics : List Declaration
memory_metrics =
    gauge (str "memory_alloc_bytes") ([])
    ∷ counter (str "memory_total_alloc_bytes_total") ([])
    ∷ gauge (str "memory_sys_bytes") ([])
    ∷ counter (str "memory_num_gc_total") ([])
    ∷ gauge (str "memory_heap_alloc_bytes") ([])
    ∷ gauge (str "memory_heap_sys_bytes") ([])
    ∷ gauge (str "memory_heap_inuse_bytes") ([])
    ∷ gauge (str "memory_heap_idle_bytes") ([])
    ∷ gauge (str "num_goroutines") ([])
    ∷ []

-- In the order of the file.
unfoldable pub declarations : List Declaration
declarations =
    throughput_metrics
    ++ (queue_metrics
        ++ (write_metrics
            ++ (dlq_metrics
                ++ (error_metrics
                    ++ (connection_metrics
                        ++ (topic_metrics ++ (latency_metrics ++ (memory_metrics))))))))
