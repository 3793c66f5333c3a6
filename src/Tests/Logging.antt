-- ===== src/Tests/Logging.antt =====
-- The logger: where it writes, and a core that takes two logs.
use tetragon_kafka_adapter.Prelude.{
  ℕ, ◌≡◌, ◌≤◌, refl, ◌⊎◌, pos, Bool, true, false, List, [], ◌∷◌, ◌++◌, Option, none, some, Text,
  str, text_eq, equal_fold, if◌then◌else◌, length,
}
use tetragon_kafka_adapter.Config.{LoggerConfig}
use tetragon_kafka_adapter.Config.Default.{default_config}
use tetragon_kafka_adapter.Kafka.Worker.Batches.{concat, AllSizes}
use tetragon_kafka_adapter.Logger.{Machine, no_output, contains, has_kafka_log, service_logger}
use tetragon_kafka_adapter.Logger.Outputs.{service_logger-silent}
use tetragon_kafka_adapter.Logger.Core.{
  new_kafka_core, Entry, sync, synced, close_core, close_of_closed,
}
use tetragon_kafka_adapter.Logger.Core.History.{
  LogAction, offers, worker_takes, worker_ticks, closes_core, worker_sees_done, new_history,
  log_acts,
}
use tetragon_kafka_adapter.Logger.Core.With.{derive, derive-close_core}
use tetragon_kafka_adapter.Logger.Core.Order.{log_acts-ordered}
use tetragon_kafka_adapter.Tests.Samples.{same_unicode}

abbrev pub never_equal : Text → Text → Bool
never_equal a b = false

abbrev pub one_pod : Machine
one_pod = record {
  getenv = λ name. if text_eq name (str "POD_NAME") then str "adapter-0" else [];
  hostname = none;
}

abbrev to_kafka : LoggerConfig
to_kafka = record default_config.logger {
  output = str "kafka" ∷ [];
  kafka = record { enabled = true; topic = str "logs" };
}

abbrev to_capital_kafka : LoggerConfig
to_capital_kafka = record to_kafka {
  output = str "Kafka" ∷ [];
  console = record { enabled = false };
}

service_logger-silent_example :
    (service_logger same_unicode never_equal one_pod to_capital_kafka true).outputs ≡ no_output ∷ []
unfolding has_kafka_log contains text_eq equal_fold
service_logger-silent_example =
    service_logger-silent same_unicode never_equal one_pod to_capital_kafka true (λ e. cc) refl refl
      refl

abbrev sample_entry : Entry
sample_entry = record {
  time = str "2024-01-01T00:00:00Z";
  level = str "info";
  logger_name = [];
  message = str "ready";
  caller = str "main.go:90";
}

abbrev sample_fields : List (Text × Text)
sample_fields = (str "level", str "INFO") ∷ (str "pod_name", str "adapter-0") ∷ []

abbrev parse_sample : Text → Option (List (Text × Text))
parse_sample buf = some sample_fields

abbrev two_logs : List LogAction
two_logs =
    offers (str "a") true
    ∷ worker_takes
    ∷ offers (str "b") true
    ∷ worker_ticks
    ∷ closes_core new_kafka_core.0
    ∷ worker_sees_done
    ∷ []

log_acts-ordered_example :
    let h = log_acts new_history two_logs in
    let w = h.shared.worker in
    (concat w.flushed ++ w.batch ++ h.shared.log_ch.items ≡ h.accepted)
    × (length h.shared.log_ch.items ≤ 1000)
    × AllSizes (pos 100) w.flushed
    × ((w.running ≡ true) ⊎ (concat w.flushed ++ h.shared.log_ch.items ≡ h.accepted))
log_acts-ordered_example = log_acts-ordered two_logs

abbrev add_number : List ℕ → ℕ → List ℕ
add_number encoder field = encoder ++ field ∷ []

derive-close_core_example :
    let (made, e) = derive add_number (new_kafka_core.0, 1 ∷ []) ((2 ∷ 3 ∷ []) ∷ (4 ∷ []) ∷ []) in
    (e ≡ 1 ∷ 2 ∷ 3 ∷ 4 ∷ [])
    × (sync made new_kafka_core.1 false ≡ synced)
    × ((close_core made (close_core new_kafka_core.0 new_kafka_core.1).1.1).0 ≡ close_of_closed)
    × ((close_core new_kafka_core.0 (close_core made new_kafka_core.1).1.1).0 ≡ close_of_closed)
unfolding new_kafka_core concat
derive-close_core_example =
    derive-close_core add_number new_kafka_core.0 (1 ∷ []) (2 ∷ 3 ∷ []) ((4 ∷ []) ∷ [])
      new_kafka_core.1 refl refl
