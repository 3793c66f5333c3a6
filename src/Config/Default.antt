-- ===== src/Config/Default.antt =====
-- DefaultConfig of internal/config/config.go, one definition for each part of the literal.
use tetragon_kafka_adapter.Prelude.{pos, negsuc, true, false, [], ◌∷◌, none, str, one_f}
use tetragon_kafka_adapter.Config.{
  TlsConfig, StreamConfig, TetragonConfig, SaslConfig, KafkaConfig, RoutingConfig, SchemaConfig,
  LoggerConfig, MonitoringConfig, Config,
}

abbrev no_tls : TlsConfig
no_tls = record { enabled = false; ca_cert = []; client_cert = []; client_key = [] }

abbrev no_sasl : SaslConfig
no_sasl = record { enabled = false; mechanism = []; username = []; password_file = [] }

abbrev default_stream : StreamConfig
default_stream = record {
  max_queue = pos 50000;
  drop_if_queue_full = true;
  sample_ratio = one_f;
  reconnect = record {
    initial_backoff_seconds = pos 1;
    max_backoff_seconds = pos 30;
    max_attempts = negsuc 0;
    jitter = true;
  };
}

abbrev default_tetragon : TetragonConfig
default_tetragon = record {
  grpc_addr = str "localhost:54321";
  tls = no_tls;
  stream = default_stream;
}

abbrev default_kafka : KafkaConfig
default_kafka = record {
  brokers = str "localhost:9092" ∷ [];
  client_id = str "tetragon-kafka-adapter";
  acks = str "all";
  compression = str "snappy";
  max_message_bytes = pos 1048576;
  batch = record { max_messages = pos 3000; max_bytes = pos 1048576; flush_interval_ms = pos 100 };
  writer_workers = pos 12;
  tls = no_tls;
  sasl = no_sasl;
  topic_admin = record {
    auto_create = true;
    partitions = pos 24;
    replication_factor = none;
    cleanup_policy = str "compact";
    min_cleanable_dirty_ratio = str "0.5";
    retention_ms = pos 604800000;
  };
  producer = record { enable_idempotence = true };
}

abbrev default_routing : RoutingConfig
default_routing = record {
  topics =
      (str "process_exec", str "tetragon.process.exec")
      ∷ (str "process_exit", str "tetragon.process.exit")
      ∷ (str "process_lsm", str "tetragon.security.lsm")
      ∷ (str "process_kprobe", str "tetragon.syscall.kprobe")
      ∷ (str "process_tracepoint", str "tetragon.kernel.tracepoint")
      ∷ (str "unknown", str "tetragon.unknown")
      ∷ (str "dlq", str "tetragon.dlq")
      ∷ [];
  partition_key = record {
    mode = str "deduplication";
    fields = str "node" ∷ str "type" ∷ str "process.pid" ∷ str "timestamp" ∷ [];
    separator = str ":";
  };
}

abbrev default_schema : SchemaConfig
default_schema = record {
  version = pos 1;
  mode = str "stable_json";
  format = str "json";
  include_raw = false;
}

abbrev default_logger : LoggerConfig
default_logger = record {
  level = str "info";
  format = str "json";
  output = str "file" ∷ [];
  console = record { enabled = false };
  file = record {
    path = str "/var/log/tetragon-kafka-adapter/app.log";
    max_size_mb = pos 100;
    max_backups = pos 5;
    max_age_days = pos 7;
  };
  kafka = record { enabled = false; topic = str "tetragon.logs" };
  data_transform = record {
    enabled = false;
    sample_ratio = record { bits = 0x3F847AE147AE147B };
    log_original = true;
    log_normalized = true;
    log_final = true;
  };
}

abbrev default_monitoring : MonitoringConfig
default_monitoring = record {
  enabled = true;
  health_port = pos 8080;
  metrics_port = pos 9090;
  pprof_enabled = false;
  pprof_port = pos 6060;
}

abbrev pub default_config : Config
default_config = record {
  tetragon = default_tetragon;
  kafka = default_kafka;
  routing = default_routing;
  schema = default_schema;
  logger = default_logger;
  monitoring = default_monitoring;
}
