-- ===== src/Config/Loader.antt =====
-- Load of internal/config/loader.go. The library that reads and decodes the file
-- (github.com/spf13/viper) is outside the repository: its two calls that can fail are arguments, and
-- what the code tells it before is `Settings`, less the calls that are always the same (the type, the
-- environment's prefix, its key replacer and AutomaticEnv). os.Getenv gives an empty text for an unset variable;
-- strings.TrimSpace outside ASCII is the argument `unicode_trim`.
pub mod Brokers
use tetragon_kafka_adapter.Prelude.{
  ℕ, Bool, true, false, ◌&&◌, List, [], ◌∷◌, Option, none, some, map, Text, str, is_empty, is_ascii,
  leb, ◌==◌, if◌then◌else◌,
}
use tetragon_kafka_adapter.Config.{Config}
use tetragon_kafka_adapter.Config.Default.{default_config}

abbrev pub is_space : ℕ → Bool
is_space c = if leb 9 c && leb c 13 then true else c == 32

unfoldable pub trim_left : Text → Text
trim_left [] = []
trim_left (c ∷ s) = let rest = trim_left s in if is_space c then rest else c ∷ s

unfoldable pub trim_right : Text → Text
trim_right [] = []
trim_right (c ∷ s) = let rest = trim_right s in if is_empty rest && is_space c then [] else c ∷ rest

unfoldable pub trim_space : (Text → Text) → Text → Text
trim_space unicode_trim s = if is_ascii s then trim_right (trim_left s) else unicode_trim s

-- strings.Split(s, ","): the parts between the commas, at least one.
abbrev prepend : ℕ → List Text → List Text
prepend c [] = (c ∷ []) ∷ []
prepend c (p ∷ ps) = (c ∷ p) ∷ ps

unfoldable pub split_comma : Text → List Text
split_comma [] = [] ∷ []
split_comma (c ∷ s) = let rest = split_comma s in if c == b',' then [] ∷ rest else prepend c rest

pub data Source : Type 0 where
  file : Text → Source
  -- The name of the file and the directories that are searched.
  search : (name : Text) (paths : List Text) → Source

pub record Settings : Type 0 where
  pub source : Source
  -- A key of the configuration and the variable that it is bound to.
  pub bound : List (Text × Text)
  -- Values that override file and environment.
  pub overrides : List (Text × List Text)

abbrev source_of : Text → Source
source_of [] = search (str "config") (str "./configs" ∷ str "." ∷ [])
source_of (c ∷ path) = file (c ∷ path)

abbrev bindings : List (Text × Text)
bindings =
    (str "tetragon.grpc_addr", str "TETRAGON_GRPC_ADDR")
    ∷ (str "tetragon.tls.enabled", str "TETRAGON_TLS_ENABLED")
    ∷ (str "tetragon.tls.ca_cert", str "TETRAGON_TLS_CA_CERT")
    ∷ (str "tetragon.tls.client_cert", str "TETRAGON_TLS_CLIENT_CERT")
    ∷ (str "tetragon.tls.client_key", str "TETRAGON_TLS_CLIENT_KEY")
    ∷ (str "tetragon.stream.max_queue", str "STREAM_MAX_QUEUE")
    ∷ (str "tetragon.stream.drop_if_queue_full", str "STREAM_DROP_IF_QUEUE_FULL")
    ∷ (str "tetragon.stream.sample_ratio", str "STREAM_SAMPLE_RATIO")
    ∷ (str "kafka.brokers", str "KAFKA_BROKERS")
    ∷ (str "kafka.client_id", str "KAFKA_CLIENT_ID")
    ∷ (str "kafka.acks", str "KAFKA_ACKS")
    ∷ (str "kafka.compression", str "KAFKA_COMPRESSION")
    ∷ (str "kafka.writer_workers", str "KAFKA_WRITER_WORKERS")
    ∷ (str "kafka.batch.max_messages", str "KAFKA_BATCH_MAX_MESSAGES")
    ∷ (str "kafka.batch.flush_interval_ms", str "KAFKA_BATCH_FLUSH_INTERVAL_MS")
    ∷ (str "kafka.topic_admin.auto_create", str "KAFKA_TOPIC_AUTO_CREATE")
    ∷ (str "kafka.topic_admin.cleanup_policy", str "KAFKA_TOPIC_CLEANUP_POLICY")
    ∷ (str "logger.level", str "LOG_LEVEL")
    ∷ []

abbrev pub brokers_override : (Text → Text) → Text → List (Text × List Text)
brokers_override unicode_trim brokers =
    if is_empty brokers
    then []
    else (str "kafka.brokers", map (trim_space unicode_trim) (split_comma brokers)) ∷ []

unfoldable pub bind_env_vars : (Text → Text) → (getenv : Text → Text) → Settings → Settings
bind_env_vars unicode_trim getenv v = record v {
  bound = bindings;
  overrides = brokers_override unicode_trim (getenv (str "KAFKA_BROKERS"));
}

-- viper.ReadInConfig.
pub data Read (File : Type 0) : Type 0 where
  read : File → Read File
  not_found read_fails : Read File

pub data Loaded : Type 0 where
  loaded : Config → Loaded
  read_error unmarshal_error : Loaded

module _ {File : Type 0} (unicode_trim : Text → Text) (read_in_config : Source → Read File)
    (unmarshal : Settings → Option File → Config → Option Config) where
  abbrev decoded : Option Config → Loaded
  decoded none = unmarshal_error
  decoded (some cfg) = loaded cfg

  unfoldable pub load : (getenv : Text → Text) → (config_path : Text) → Loaded
  load getenv config_path =
      let empty : Settings = record {
        source = source_of config_path;
        bound = [];
        overrides = [];
      } in
      let v = bind_env_vars unicode_trim getenv empty in
      elim (read_in_config (source_of config_path)) [
        | read_fails ↦ read_error
        | not_found ↦ decoded (unmarshal v none default_config)
        | read f ↦ decoded (unmarshal v (some f) default_config)
      ]
