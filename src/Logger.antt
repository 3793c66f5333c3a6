-- ===== src/Logger.antt =====
-- internal/logger/logger.go, and how cmd/consumer/main.go calls it twice. The logging library
-- (go.uber.org/zap) and the files are outside: a logger is the level, the encoder, the outputs and
-- the fixed fields that it was made with. strings.ToLower and strings.EqualFold outside ASCII are
-- the arguments `unicode` and `fold`.
pub mod Outputs
pub mod Core
use tetragon_kafka_adapter.Prelude.{
  Bool, true, false, ◌&&◌, ◌||◌, not, List, [], ◌∷◌, ◌++◌, Option, none, some, Text, str, is_empty,
  text_eq, to_lower, equal_fold, pos, length, ◌==◌, if◌then◌else◌,
}
use tetragon_kafka_adapter.Config.{
  LoggerConfig, FileLogConfig, ConsoleLogConfig, KafkaLogConfig, DataTransformLogConfig,
}

pub data Level : Type 0 where
  debug info warn error : Level

pub data Output : Type 0 where
  file_output : FileLogConfig → Output
  kafka_output : (topic : Text) → Output
  console_output no_output : Output

pub record Logger : Type 0 where
  pub level : Level
  pub json : Bool
  pub outputs : List Output
  pub fields : List (Text × Text)

unfoldable pub init_level : (Text → Text) → Text → Level
init_level unicode s =
    let level = to_lower unicode s in
    if text_eq level (str "debug")
    then debug
    else if text_eq level (str "info")
    then info
    else if text_eq level (str "warn")
    then warn
    else if text_eq level (str "error")
    then error
    else info

-- os.Getenv, where an unset variable is empty, and os.Hostname.
pub record Machine : Type 0 where
  pub getenv : Text → Text
  pub hostname : Option Text

-- One block of getK8sMetadata: the field from the first variable that is not empty.
abbrev field_from : Text → List Text → List (Text × Text)
field_from name [] = []
field_from name (value ∷ values) =
    if is_empty value then field_from name values else (name, value) ∷ []

unfoldable pub get_k8s_metadata : Machine → List (Text × Text)
get_k8s_metadata m =
    field_from (str "pod_name") (m.getenv (str "POD_NAME") ∷ m.getenv (str "HOSTNAME") ∷ [])
    ++ (field_from (str "pod_ip") (m.getenv (str "POD_IP") ∷ [])
        ++ (field_from (str "namespace") (m.getenv (str "POD_NAMESPACE") ∷ [])
            ++ (field_from (str "node_name") (m.getenv (str "NODE_NAME") ∷ [])
                ++ (field_from (str "node_ip")
                      (m.getenv (str "NODE_IP") ∷ m.getenv (str "HOST_IP") ∷ [])
                    ++ (elim m.hostname [
                      | none ↦ []
                      | some name ↦ field_from (str "server_name") (name ∷ [])
                    ])))))

unfoldable pub contains : (Text → Text → Bool) → List Text → Text → Bool
contains fold [] item = false
contains fold (s ∷ slice) item =
    let rest = contains fold slice item in if equal_fold fold s item then true else rest

abbrev when : Bool → Output → List Output
when test o = if test then o ∷ [] else []

abbrev or_no_output : List Output → List Output
or_no_output [] = no_output ∷ []
or_no_output (o ∷ os) = o ∷ os

-- main: `hasKafkaLog`, and the outputs without "kafka".
unfoldable pub has_kafka_log : List Text → Bool
has_kafka_log [] = false
has_kafka_log (o ∷ outputs) =
    let rest = has_kafka_log outputs in if text_eq o (str "kafka") then true else rest

unfoldable pub without_kafka : List Text → List Text
without_kafka [] = []
without_kafka (o ∷ outputs) =
    let rest = without_kafka outputs in if text_eq o (str "kafka") then rest else o ∷ rest

abbrev or_file : List Text → List Text
or_file [] = str "file" ∷ []
or_file (o ∷ outputs) = o ∷ outputs

-- main: the outputs of the first call of Init.
unfoldable pub first_outputs : List Text → List Text
first_outputs outputs =
    if has_kafka_log outputs && (length outputs == 1) then [] else or_file (without_kafka outputs)

module _ (unicode : Text → Text) (fold : Text → Text → Bool) (machine : Machine) where
  -- `has_producer`: the producer given to Init is not nil. Init never fails.
  unfoldable pub init : LoggerConfig → (has_producer : Bool) → Logger
  init cfg has_producer =
      let to_kafka =
        contains fold cfg.output (str "kafka") && (cfg.kafka.enabled && has_producer) in
      let to_file = contains fold cfg.output (str "file") && not to_kafka in
      record {
        level = init_level unicode cfg.level;
        json = text_eq (to_lower unicode cfg.format) (str "json");
        outputs = or_no_output (
            when to_file (file_output cfg.file)
            ++ (when to_kafka (kafka_output cfg.kafka.topic)
                ++ when cfg.console.enabled console_output));
        fields = get_k8s_metadata machine;
      }

  abbrev app_log : FileLogConfig
  app_log = record {
    path = str "/var/log/tetragon-kafka-adapter/app.log";
    max_size_mb = pos 100;
    max_backups = pos 5;
    max_age_days = pos 7;
  }

  -- The other fields have Go's zero values.
  abbrev file_only : Text → Text → LoggerConfig
  file_only level format = record {
    level = level;
    format = format;
    output = str "file" ∷ [];
    console = record { enabled = false };
    file = app_log;
    kafka = record { enabled = false; topic = [] };
    data_transform = record {
      enabled = false;
      sample_ratio = record { bits = 0 };
      log_original = false;
      log_normalized = false;
      log_final = false;
    };
  }

  unfoldable pub init_simple : Text → Text → Logger
  init_simple level format = init (file_only level format) false

  -- The global logger, made if there is none yet.
  unfoldable pub get_logger : Option Logger → Logger
  get_logger none = init (file_only (str "info") (str "json")) false
  get_logger (some logger) = logger

  -- main: the logger after the first call of Init, and the one that the service runs with.
  unfoldable pub first_logger : LoggerConfig → Logger
  first_logger cfg = init (record cfg { output = first_outputs cfg.output }) false

  unfoldable pub service_logger : LoggerConfig → (has_producer : Bool) → Logger
  service_logger cfg has_producer =
      if has_kafka_log cfg.output && cfg.kafka.enabled
      then init cfg has_producer
      else first_logger cfg
