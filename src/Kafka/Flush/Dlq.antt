-- ===== src/Kafka/Flush/Dlq.antt =====
-- The retries of writeToDLQ of internal/kafka/writer.go.
use tetragon_kafka_adapter.Prelude.{
  ℕ, ◌≡◌, ℤ, Bool, false, List, [], ◌∷◌, Text, length, if◌then◌else◌, arith,
}
use tetragon_kafka_adapter.Metrics.{dlq_events, dlq_events_bytes}
use tetragon_kafka_adapter.Tetragon.{TetragonApi}
use tetragon_kafka_adapter.Router.{Router, get_dlq_topic}
use tetragon_kafka_adapter.Kafka.Producer.{ProducerMessage, build_message, send_message}
use tetragon_kafka_adapter.Kafka.Writer.{Message}
use tetragon_kafka_adapter.Kafka.Flush.{
  DlqRun, dlq_written, dlq_cancelled, producer_message, attempts, dlq_send, write_to_dlq,
}

module _ (api : TetragonApi) (now : ℤ) (r : Router) where
  open api use {Event}

  abbrev dlq_copy : Message Event → ProducerMessage
  dlq_copy m = record (producer_message api now m) { topic = get_dlq_topic r }

  abbrev dlq_success : Message Event → Text → ℕ → List ℕ → DlqRun
  dlq_success m reason attempt waited = record {
    outcome = dlq_written attempt;
    produced = dlq_copy m ∷ [];
    waited = waited;
    metrics = dlq_events reason ∷ dlq_events_bytes (length m.value) ∷ [];
  }

  -- With a context that has ended before the first retry, writeToDLQ makes one attempt: if that
  -- fails, nothing is retried or produced, and no metric counts the failure.
  pub write_to_dlq_cancelled :
      (sends waits : ℕ → Bool) (m : Message Event) (reason : Text)
      → waits 1 ≡ false
      → write_to_dlq api sends waits now r m reason ≡ (
          if sends 0
          then dlq_success m reason 0 []
          else record { outcome = dlq_cancelled 1; produced = []; waited = []; metrics = [] })
  unfolding write_to_dlq attempts dlq_send send_message build_message producer_message
  write_to_dlq_cancelled sends waits m reason h = ground arith
