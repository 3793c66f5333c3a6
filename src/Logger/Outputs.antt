-- ===== src/Logger/Outputs.antt =====
-- Where the service logs: internal/logger/logger.go with the two calls in cmd/consumer/main.go.
use tetragon_kafka_adapter.Prelude.{
  ◌≡◌, refl, ◌≢◌, ◌⊎◌, inl, inr, Bool, true, false, ◌&&◌, List, [], ◌∷◌, Text, str, text_eq,
  text_eq_iff, equal_fold, arith, Bool-cases,
}
use tetragon_kafka_adapter.Config.{LoggerConfig}
use tetragon_kafka_adapter.Logger.{
  Output, file_output, kafka_output, no_output, Machine, contains, init, has_kafka_log,
  without_kafka, first_outputs, first_logger, service_logger,
}

writes_file : List Output → Bool
writes_file [] = false
writes_file (file_output f ∷ os) = true
writes_file (o ∷ os) = writes_file os

writes_kafka : List Output → Bool
writes_kafka [] = false
writes_kafka (kafka_output t ∷ os) = true
writes_kafka (o ∷ os) = writes_kafka os

module _ (unicode : Text → Text) (fold : Text → Text → Bool) (machine : Machine) where
  -- Init writes to Kafka if the outputs name it (whatever the case), it is enabled and there is a
  -- producer, and then not to the file.
  init-outputs :
      (cfg : LoggerConfig) (has_producer : Bool)
      → let os = (init unicode fold machine cfg has_producer).outputs in
        (writes_kafka os
          ≡ (contains fold cfg.output (str "kafka") && (cfg.kafka.enabled && has_producer)))
        × ((writes_kafka os ≡ false) ⊎ (writes_file os ≡ false))
        × (os ≢ [])
  unfolding init writes_file writes_kafka
  init-outputs cfg has_producer = (ground arith, ground arith, ground arith)

  kafka_folds : equal_fold fold (str "kafka") (str "kafka") ≡ true
  unfolding equal_fold text_eq
  kafka_folds = refl

  file_folds : equal_fold fold (str "file") (str "file") ≡ true
  unfolding equal_fold text_eq
  file_folds = refl

  contains_of_log :
      (outputs : List Text)
      → has_kafka_log outputs ≡ true
      → contains fold outputs (str "kafka") ≡ true
  unfolding has_kafka_log contains
  contains_of_log [] h = cc
  contains_of_log (o ∷ outputs) h = elim (Bool-cases (text_eq o (str "kafka"))) [
    | inl same ↦
        let e : o ≡ str "kafka" = (text_eq_iff o (str "kafka")).0 same in rw e (rw kafka_folds refl)
    | inr other ↦ ground (arith, contains_of_log outputs)
  ]

  -- The service logs to Kafka exactly if "kafka", in these letters, is among the outputs, Kafka
  -- logging is enabled and the producer was made; it never logs to Kafka and to the file at once,
  -- and it always has an output, which may be the one that discards.
  service_logger-outputs :
      (cfg : LoggerConfig) (has_producer : Bool)
      → let os = (service_logger unicode fold machine cfg has_producer).outputs in
        (writes_kafka os ≡ (has_kafka_log cfg.output && (cfg.kafka.enabled && has_producer)))
        × ((writes_kafka os ≡ false) ⊎ (writes_file os ≡ false))
        × (os ≢ [])
  unfolding service_logger first_logger
  service_logger-outputs cfg has_producer =
      let first = record cfg { output = first_outputs cfg.output } in
      let early = init-outputs first false in
      let late = init-outputs cfg has_producer in
      (
        ground (arith, early.0, late.0, contains_of_log cfg.output),
        ground (arith, early.1, late.1),
        ground (arith, early.2, late.2),
      )

  without_kafka-eq :
      (outputs : List Text) → has_kafka_log outputs ≡ false → without_kafka outputs ≡ outputs
  unfolding has_kafka_log without_kafka
  without_kafka-eq [] h = refl
  without_kafka-eq (o ∷ outputs) h = ground (arith, without_kafka-eq outputs)

  -- If no output is "kafka" in these letters and none is "file" in any case, as with "Kafka" alone,
  -- and the console is off, then the service discards its log, whether or not Kafka logging is
  -- enabled and the producer was made.
  pub service_logger-silent :
      (cfg : LoggerConfig) (has_producer : Bool)
      → cfg.output ≢ []
      → has_kafka_log cfg.output ≡ false
      → contains fold cfg.output (str "file") ≡ false
      → cfg.console.enabled ≡ false
      → (service_logger unicode fold machine cfg has_producer).outputs ≡ no_output ∷ []
  unfolding service_logger first_logger init first_outputs
  service_logger-silent cfg has_producer some_output no_kafka no_file off =
      ground (arith, without_kafka-eq cfg.output)
