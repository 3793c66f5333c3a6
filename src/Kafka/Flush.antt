-- ===== src/Kafka/Flush.antt =====
-- flushBatch and writeToDLQ of internal/kafka/writer.go.
pub mod Loss
pub mod Dlq
use tetragon_kafka_adapter.Prelude.{
  ℕ, zero, suc, ◌*◌, ◌==◌, ℤ, Bool, true, false, List, [], ◌∷◌, ◌++◌, Option, none, some, Text, str,
  not, ◌&&◌, is_empty, one_of, length, drop, if◌then◌else◌,
}
use tetragon_kafka_adapter.Metrics.{Metric, dlq_events, dlq_events_bytes, dlq_write_failures}
use tetragon_kafka_adapter.Tetragon.{TetragonApi}
use tetragon_kafka_adapter.Router.{Router, get_dlq_topic}
use tetragon_kafka_adapter.Kafka.Producer.{
  RecordHeader, ProducerMessage, SendError, timestamp_of, send_message,
}
use tetragon_kafka_adapter.Kafka.Writer.{Message}

pub data DlqOutcome : Type 0 where
  -- Written on this attempt, cancelled before this attempt, or every attempt failed.
  dlq_written : ℕ → DlqOutcome
  dlq_cancelled : ℕ → DlqOutcome
  dlq_failed : DlqOutcome

pub record DlqRun : Type 0 where
  pub outcome : DlqOutcome
  pub produced : List ProducerMessage
  -- The waits that ran to their end, in milliseconds.
  pub waited : List ℕ
  pub metrics : List Metric

abbrev pub max_retries : ℕ
max_retries = 3

-- The key by which a message is tracked.
unfoldable pub message_key : {E : Type 0} → Message E → Text
message_key m = if is_empty m.trace_id then m.topic ++ (b':' ∷ m.key) else m.trace_id

-- A set of the keys of `sentMessages`.
abbrev pub insert_key : Text → List Text → List Text
insert_key k ks = if one_of k ks then ks else k ∷ ks

module _ (api : TetragonApi) where
  open api use {Event}

  -- One call of SendMessage for the dead letter topic: what it hands over, if it does.
  unfoldable pub dlq_send :
      Bool → ℤ → Text → Message Event → Option SendError × List ProducerMessage
  dlq_send sends now topic m =
      send_message api sends now topic m.key m.value m.event m.event_type m.content_type

  -- The loop before attempt `attempt`, with `left` attempts to make. `sends i` says whether attempt
  -- `i` reaches the client, and `waits i` whether the wait before it ends before the context does.
  unfoldable pub attempts :
      (sends waits : ℕ → Bool)
      → ℤ
      → Text
      → Text
      → Message Event
      → (left attempt backoff : ℕ) → List ℕ
      → DlqRun
  attempts sends waits now topic reason m zero attempt backoff waited = record {
    outcome = dlq_failed;
    produced = [];
    waited = waited;
    metrics = dlq_write_failures ∷ [];
  }
  attempts sends waits now topic reason m (suc left) attempt backoff waited =
      let waited' = if attempt == 0 then waited else waited ++ backoff ∷ [] in
      let backoff' = if attempt == 0 then backoff else backoff * 2 in
      let again = attempts sends waits now topic reason m left (suc attempt) backoff' waited' in
      let cancelled : DlqRun = record {
        outcome = dlq_cancelled attempt;
        produced = [];
        waited = waited;
        metrics = [];
      } in
      let sent = dlq_send (sends attempt) now topic m in
      let written : DlqRun = record {
        outcome = dlq_written attempt;
        produced = sent.1;
        waited = waited';
        metrics = dlq_events reason ∷ dlq_events_bytes (length m.value) ∷ [];
      } in
      if not (attempt == 0) && not (waits attempt)
      then cancelled
      else elim sent.0 [ none ↦ written | some e ↦ again ]

  unfoldable pub write_to_dlq :
      (sends waits : ℕ → Bool) → ℤ → Router → Message Event → Text → DlqRun
  write_to_dlq sends waits now r m reason =
      attempts sends waits now (get_dlq_topic r) reason m max_retries 0 100 []

  -- The message that flushBatch builds for the client.
  unfoldable pub producer_message : ℤ → Message Event → ProducerMessage
  producer_message now m =
      let content_type =
        if is_empty m.content_type then str "application/json" else m.content_type in
      let headers =
        record { key = str "content-type"; value = content_type }
        ∷ record { key = str "schema-version"; value = str "1" }
        ∷ [] in
      record {
        topic = m.topic;
        key = m.key;
        value = m.value;
        timestamp = timestamp_of api now m.event;
        headers =
            if is_empty m.event_type
            then headers
            else headers ++ record { key = str "event-type"; value = m.event_type } ∷ [];
      }

  -- What a flush hands to the client from the batch, in order, and the messages that it then
  -- passes to writeToDLQ.
  pub record Flushed : Type 0 where
    pub produced : List ProducerMessage
    pub to_dlq : List (Message Event)
    pub cancelled : Bool

  -- The loop of flushBatch over the rest of the batch. Its context wins the select after `admitted`
  -- more sends. `keys` are those of `sentMessages`, `out` is what was handed over.
  unfoldable pub flush_loop :
      (admitted : ℕ)
      → ℤ
      → (batch : List (Message Event)) → List Text
      → List ProducerMessage
      → List (Message Event)
      → Flushed
  flush_loop admitted now batch keys out [] = record {
    produced = out;
    to_dlq = [];
    cancelled = false;
  }
  flush_loop zero now batch keys out (m ∷ ms) = record {
    produced = out;
    to_dlq = drop (length (insert_key (message_key m) keys)) batch;
    cancelled = true;
  }
  flush_loop (suc admitted) now batch keys out (m ∷ ms) =
      flush_loop admitted now batch (insert_key (message_key m) keys)
        (out ++ producer_message now m ∷ []) ms

  -- The writes to the dead letter topic, one after another.
  unfoldable pub dlq_all :
      (sends waits : ℕ → ℕ → Bool) → ℤ → Router → ℕ → List (Message Event) → List DlqRun
  dlq_all sends waits now r i [] = []
  dlq_all sends waits now r i (m ∷ ms) =
      write_to_dlq (sends i) (waits i) now r m (str "context cancelled")
      ∷ dlq_all sends waits now r (suc i) ms

  unfoldable pub flush_batch :
      (admitted : ℕ) (dlq_sends dlq_waits : ℕ → ℕ → Bool)
      → ℤ
      → Router
      → List (Message Event)
      → Flushed × List DlqRun
  flush_batch admitted dlq_sends dlq_waits now r batch =
      let f = flush_loop admitted now batch [] [] batch in
      (f, dlq_all dlq_sends dlq_waits now r 0 f.to_dlq)
