-- ===== src/Config.antt =====
-- internal/config/config.go: the configuration as the loader fills it. An int or int64 is a ℤ, a
-- float64 its bit pattern, a map an association list, and a pointer an Option.
pub mod Default
pub mod Loader
pub mod Address
pub mod Validator
pub mod Valid
pub mod Addresses
pub mod Sound
pub mod Backoff
use tetragon_kafka_adapter.Prelude.{ℤ, Bool, List, Option, Text, Float64}

pub record TlsConfig : Type 0 where
  pub enabled : Bool
  pub ca_cert : Text
  pub client_cert : Text
  pub client_key : Text

pub record ReconnectConfig : Type 0 where
  pub initial_backoff_seconds : ℤ
  pub max_backoff_seconds : ℤ
  pub max_attempts : ℤ
  pub jitter : Bool

pub record StreamConfig : Type 0 where
  pub max_queue : ℤ
  pub drop_if_queue_full : Bool
  pub sample_ratio : Float64
  pub reconnect : ReconnectConfig

pub record TetragonConfig : Type 0 where
  pub grpc_addr : Text
  pub tls : TlsConfig
  pub stream : StreamConfig

pub record BatchConfig : Type 0 where
  pub max_messages : ℤ
  pub max_bytes : ℤ
  pub flush_interval_ms : ℤ

pub record SaslConfig : Type 0 where
  pub enabled : Bool
  pub mechanism : Text
  pub username : Text
  pub password_file : Text

pub record TopicAdminConfig : Type 0 where
  pub auto_create : Bool
  pub partitions : ℤ
  pub replication_factor : Option ℤ
  pub cleanup_policy : Text
  pub min_cleanable_dirty_ratio : Text
  pub retention_ms : ℤ

pub record ProducerConfig : Type 0 where
  pub enable_idempotence : Bool

pub record KafkaConfig : Type 0 where
  pub brokers : List Text
  pub client_id : Text
  pub acks : Text
  pub compression : Text
  pub max_message_bytes : ℤ
  pub batch : BatchConfig
  pub writer_workers : ℤ
  pub tls : TlsConfig
  pub sasl : SaslConfig
  pub topic_admin : TopicAdminConfig
  pub producer : ProducerConfig

pub record PartitionKeyConfig : Type 0 where
  pub mode : Text
  pub fields : List Text
  pub separator : Text

pub record RoutingConfig : Type 0 where
  pub topics : List (Text × Text)
  pub partition_key : PartitionKeyConfig

pub record SchemaConfig : Type 0 where
  pub version : ℤ
  pub mode : Text
  pub format : Text
  pub include_raw : Bool

pub record DataTransformLogConfig : Type 0 where
  pub enabled : Bool
  pub sample_ratio : Float64
  pub log_original : Bool
  pub log_normalized : Bool
  pub log_final : Bool

pub record FileLogConfig : Type 0 where
  pub path : Text
  pub max_size_mb : ℤ
  pub max_backups : ℤ
  pub max_age_days : ℤ

pub record ConsoleLogConfig : Type 0 where
  pub enabled : Bool

pub record KafkaLogConfig : Type 0 where
  pub enabled : Bool
  pub topic : Text

pub record LoggerConfig : Type 0 where
  pub level : Text
  pub format : Text
  pub output : List Text
  pub console : ConsoleLogConfig
  pub file : FileLogConfig
  pub kafka : KafkaLogConfig
  pub data_transform : DataTransformLogConfig

pub record MonitoringConfig : Type 0 where
  pub enabled : Bool
  pub health_port : ℤ
  pub metrics_port : ℤ
  pub pprof_enabled : Bool
  pub pprof_port : ℤ

pub record Config : Type 0 where
  pub tetragon : TetragonConfig
  pub kafka : KafkaConfig
  pub routing : RoutingConfig
  pub schema : SchemaConfig
  pub logger : LoggerConfig
  pub monitoring : MonitoringConfig
