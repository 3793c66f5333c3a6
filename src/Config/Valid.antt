-- ===== src/Config/Valid.antt =====
-- What a valid configuration is, written without the tests of internal/config/validator.go.
use tetragon_kafka_adapter.Prelude.{
  ℕ, ◌*◌, ◌≤◌, true, false, ◌≡◌, ◌≢◌, ◌⊎◌, [], ◌∷◌, Text, str, AnyOf, to_lower, ℤ, pos, ◌≤ℤ◌, ltb_f,
  zero_f, one_f,
}
use tetragon_kafka_adapter.Prelude.Every.{All}
use tetragon_kafka_adapter.Config.{
  Config, KafkaConfig, StreamConfig, BatchConfig, MonitoringConfig, RoutingConfig, SchemaConfig,
  ReconnectConfig,
}
use tetragon_kafka_adapter.Config.Address.{split_ok, atoi_ok, split_host_port, atoi}

-- host:port with a port number.
abbrev pub IsAddress : Text → Type 0
IsAddress s =
    (host port : Text) × (n : ℕ) × (split_host_port s ≡ split_ok host port)
    × (host ≢ [])
    × (atoi port ≡ atoi_ok (pos n))
    × (1 ≤ n)
    × (n ≤ 65535)

abbrev pub IsPort : ℤ → Type 0
IsPort p = (pos 1 ≤ℤ p) × (p ≤ℤ pos 65535)

pub record IsValidKafka (unicode : Text → Text) (k : KafkaConfig) : Type 0 where
  pub some_broker : k.brokers ≢ []
  pub brokers_ok : All IsAddress k.brokers
  pub client_named : k.client_id ≢ []
  pub acks_ok : AnyOf (to_lower unicode k.acks) (str "all" ∷ str "1" ∷ str "0" ∷ [])
  pub compression_ok :
      AnyOf
        (to_lower unicode k.compression)
        (str "none" ∷ str "gzip" ∷ str "snappy" ∷ str "lz4" ∷ str "zstd" ∷ [])

pub record IsValidStream (s : StreamConfig) : Type 0 where
  pub queue_low : pos 1 ≤ℤ s.max_queue
  pub queue_high : s.max_queue ≤ℤ pos 1000000
  pub ratio_low : ltb_f s.sample_ratio zero_f ≡ false
  pub ratio_high : ltb_f one_f s.sample_ratio ≡ false

pub record IsValidBatch (b : BatchConfig) : Type 0 where
  pub messages_low : pos 1 ≤ℤ b.max_messages
  pub messages_high : b.max_messages ≤ℤ pos 100000
  pub flush_low : pos 1 ≤ℤ b.flush_interval_ms
  pub flush_high : b.flush_interval_ms ≤ℤ pos 60000
  pub bytes_low : pos 1 ≤ℤ b.max_bytes
  pub bytes_high : b.max_bytes ≤ℤ pos (100 * 1024 * 1024)

pub record IsValidReconnect (r : ReconnectConfig) : Type 0 where
  pub initial_low : pos 1 ≤ℤ r.initial_backoff_seconds
  pub initial_le_max : r.initial_backoff_seconds ≤ℤ r.max_backoff_seconds
  pub max_high : r.max_backoff_seconds ≤ℤ pos 3600

pub record IsValidRouting (r : RoutingConfig) : Type 0 where
  pub some_topic : r.topics ≢ []
  pub mode_ok :
      AnyOf r.partition_key.mode
        (str "deduplication" ∷ str "fields_concat" ∷ str "hash" ∷ str "random" ∷ [])

pub record IsValidSchema (s : SchemaConfig) : Type 0 where
  pub mode_ok : AnyOf s.mode (str "stable_json" ∷ str "raw_string_fallback" ∷ [])
  pub format_ok : (s.format ≡ []) ⊎ AnyOf s.format (str "json" ∷ str "protobuf" ∷ [])

pub record IsValidMonitoring (m : MonitoringConfig) : Type 0 where
  pub health : m.enabled ≡ true → IsPort m.health_port
  pub metrics : m.enabled ≡ true → IsPort m.metrics_port
  pub apart : m.enabled ≡ true → m.health_port ≢ m.metrics_port
  pub pprof : m.enabled ≡ true → m.pprof_enabled ≡ true → IsPort m.pprof_port
  pub pprof_apart :
      m.enabled ≡ true
      → m.pprof_enabled ≡ true
      → (m.pprof_port ≢ m.health_port) × (m.pprof_port ≢ m.metrics_port)

pub record IsValid (unicode : Text → Text) (cfg : Config) : Type 0 where
  pub kafka : IsValidKafka unicode cfg.kafka
  pub workers_low : pos 1 ≤ℤ cfg.kafka.writer_workers
  pub workers_high : cfg.kafka.writer_workers ≤ℤ pos 1000
  pub stream : IsValidStream cfg.tetragon.stream
  pub batch : IsValidBatch cfg.kafka.batch
  pub routing : IsValidRouting cfg.routing
  pub schema : IsValidSchema cfg.schema
  pub reconnect : IsValidReconnect cfg.tetragon.stream.reconnect
  pub monitoring : IsValidMonitoring cfg.monitoring
  pub grpc : IsAddress cfg.tetragon.grpc_addr
