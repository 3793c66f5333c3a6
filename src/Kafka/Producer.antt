-- ===== src/Kafka/Producer.antt =====
-- internal/kafka/producer.go. The broker client (github.com/IBM/sarama) is outside the repository:
-- what the code hands to its input channel is a list of messages, oldest first. Every caller's
-- context has a timeout, so that a `select` between that channel and the context ends: `sends` says
-- that it took the channel.
pub mod Codecs
use tetragon_kafka_adapter.Prelude.{
  ℤ, ℕ, Bool, true, false, List, [], ◌∷◌, ◌++◌, Option, none, some, Text, str, is_empty, text_eq,
  length, if◌then◌else◌,
}
use tetragon_kafka_adapter.Metrics.{
  Metric, kafka_errors, kafka_write_messages, kafka_write_bytes, kafka_producer_connected,
}
use tetragon_kafka_adapter.Tetragon.{TetragonApi}
use tetragon_kafka_adapter.Config.{KafkaConfig}

pub record RecordHeader : Type 0 where
  pub key : Text
  pub value : Text

-- sarama.ProducerMessage, its timestamp in nanoseconds.
pub record ProducerMessage : Type 0 where
  pub topic : Text
  pub key : Text
  pub value : Text
  pub timestamp : ℤ
  pub headers : List RecordHeader

pub data SendError : Type 0 where
  context_done : SendError

module _ (api : TetragonApi) where
  open api use {Event, get_time}

  -- `event.GetTime().AsTime()` if the event and its time are there, else time.Now().
  abbrev pub timestamp_of : ℤ → Option Event → ℤ
  timestamp_of now none = now
  timestamp_of now (some e) = elim (get_time e) [ none ↦ now | some t ↦ t ]

  -- The message that SendMessage builds.
  unfoldable pub build_message :
      ℤ
      → (topic key value : Text) → Option Event
      → (event_type content_type : Text) → ProducerMessage
  build_message now topic key value event event_type content_type =
      let content_type' = if is_empty content_type then str "application/json" else content_type in
      let headers =
        record { key = str "content-type"; value = content_type' }
        ∷ record { key = str "schema-version"; value = str "1" }
        ∷ [] in
      record {
        topic = topic;
        key = key;
        value = value;
        timestamp = timestamp_of now event;
        headers =
            if is_empty event_type
            then headers
            else headers ++ record { key = str "event-type"; value = event_type } ∷ [];
      }

  unfoldable pub send_message :
      (sends : Bool)
      → ℤ
      → (topic key value : Text) → Option Event
      → (event_type content_type : Text) → Option SendError × List ProducerMessage
  send_message sends now topic key value event event_type content_type =
      if sends
      then (none, build_message now topic key value event event_type content_type ∷ [])
      else (some context_done, [])

-- handleErrors at one value of the error channel, given by its message's topic (`none` is nil).
unfoldable pub handle_error : Option Text → List Metric
handle_error none = []
handle_error (some topic) = kafka_errors (str "write") topic ∷ []

-- handleSuccesses at one message, given by its topic and the length of its bytes, if it has any.
unfoldable pub handle_success : Text → Option ℕ → List Metric
handle_success topic none = kafka_write_messages topic ∷ []
handle_success topic (some n) = kafka_write_messages topic ∷ kafka_write_bytes topic n ∷ []

pub data RequiredAcks : Type 0 where
  wait_for_all wait_for_local no_response : RequiredAcks

unfoldable pub parse_acks : Text → RequiredAcks
parse_acks s =
    if text_eq s (str "all")
    then wait_for_all
    else if text_eq s (str "1")
    then wait_for_local
    else if text_eq s (str "0")
    then no_response
    else wait_for_all

pub data CompressionCodec : Type 0 where
  compression_none compression_gzip compression_snappy compression_lz4 compression_zstd :
      CompressionCodec

unfoldable pub parse_compression : Text → CompressionCodec
parse_compression s =
    if text_eq s (str "gzip")
    then compression_gzip
    else if text_eq s (str "snappy")
    then compression_snappy
    else if text_eq s (str "lz4")
    then compression_lz4
    else if text_eq s (str "zstd")
    then compression_zstd
    else compression_none

-- What NewProducer sets in the client's configuration from ours (times in milliseconds).
pub record SaramaConfig : Type 0 where
  pub dial_timeout_ms : ℕ
  pub read_timeout_ms : ℕ
  pub write_timeout_ms : ℕ
  pub keep_alive_ms : ℕ
  pub metadata_retry_max : ℕ
  pub metadata_retry_backoff_ms : ℕ
  pub metadata_timeout_ms : ℕ
  pub metadata_refresh_ms : ℕ
  pub return_successes : Bool
  pub return_errors : Bool
  pub required_acks : RequiredAcks
  pub compression : CompressionCodec
  pub max_message_bytes : ℤ
  pub flush_messages : ℤ
  pub flush_bytes : ℤ
  pub flush_frequency_ms : ℤ
  pub idempotent : Bool
  -- `none`: the client's own value.
  pub max_open_requests : Option ℕ

unfoldable pub sarama_config : KafkaConfig → SaramaConfig
sarama_config cfg = record {
  dial_timeout_ms = 10000;
  read_timeout_ms = 10000;
  write_timeout_ms = 10000;
  keep_alive_ms = 30000;
  metadata_retry_max = 3;
  metadata_retry_backoff_ms = 250;
  metadata_timeout_ms = 10000;
  metadata_refresh_ms = 600000;
  return_successes = true;
  return_errors = true;
  required_acks = parse_acks cfg.acks;
  compression = parse_compression cfg.compression;
  max_message_bytes = cfg.max_message_bytes;
  flush_messages = cfg.batch.max_messages;
  flush_bytes = cfg.batch.max_bytes;
  flush_frequency_ms = cfg.batch.flush_interval_ms;
  idempotent = cfg.producer.enable_idempotence;
  max_open_requests = if cfg.producer.enable_idempotence then some 1 else none;
}

pub record Producer : Type 0 where
  pub config : SaramaConfig
  pub cancelled : Bool

-- NewProducer: `connects` is whether the client library reaches a broker; `none` is its error.
unfoldable pub new_producer : (connects : Bool) → KafkaConfig → Option Producer × List Metric
new_producer connects cfg =
    if connects
    then (
      some (record { config = sarama_config cfg; cancelled = false }),
      kafka_producer_connected 1 ∷ [],
    )
    else (none, [])

unfoldable pub close : Producer → Producer × List Metric
close p = (record p { cancelled = true }, kafka_producer_connected 0 ∷ [])
