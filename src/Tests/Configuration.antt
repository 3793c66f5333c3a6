-- ===== src/Tests/Configuration.antt =====
-- Configurations, backoffs, codecs and topics.
use tetragon_kafka_adapter.Prelude.{
  ◌≡◌, ◌⊎◌, refl, ◌≢◌, ◌↔◌, true, false, List, [], ◌∷◌, none, some, Text, str, pos, to_lower,
  text_eq, one_of, ltb_f, arith, decimal, ◌++◌,
}
use tetragon_kafka_adapter.Config.{Config, ReconnectConfig, TopicAdminConfig}
use tetragon_kafka_adapter.Config.Default.{default_config}
use tetragon_kafka_adapter.Config.Validator.{
  validate, check_kafka, check_brokers, check_broker, check_address, check_parts, check_port,
  check_stream, check_workers, check_batch, check_routing, check_schema, check_reconnect,
  check_monitoring, check_grpc_addr,
}
use tetragon_kafka_adapter.Config.Address.{split_host_port, split_ok, atoi, atoi_ok}
use tetragon_kafka_adapter.Config.Address.RoundTrip.{check_address-join}
use tetragon_kafka_adapter.Config.Valid.{IsValid}
use tetragon_kafka_adapter.Config.Sound.{validate_iff}
use tetragon_kafka_adapter.Config.Backoff.{get_reconnect_backoff}
use tetragon_kafka_adapter.Config.Backoff.Growth.{
  get_reconnect_backoff_exact, get_reconnect_backoff_wraps,
}
use tetragon_kafka_adapter.Kafka.Producer.{parse_compression, compression_none}
use tetragon_kafka_adapter.Kafka.Producer.Codecs.{codec_name, compression_of_valid}
use tetragon_kafka_adapter.Kafka.TopicAdmin.{
  ClusterAdmin, ensure_topics, ensure_loop, create_compacted_topic, topic_detail,
}
use tetragon_kafka_adapter.Tests.Samples.{same_unicode}

default_validates : validate same_unicode default_config ≡ none
unfolding validate check_kafka check_brokers check_broker check_address check_parts check_port
    split_host_port atoi text_eq one_of to_lower check_stream check_workers check_batch
    check_routing check_schema check_reconnect check_monitoring check_grpc_addr ltb_f
default_validates = refl

validate_iff_example :
    (validate same_unicode default_config ≡ none) ↔ IsValid same_unicode default_config
validate_iff_example = validate_iff same_unicode default_config

pub default-IsValid : IsValid same_unicode default_config
default-IsValid = (validate_iff same_unicode default_config).0 default_validates

-- The same with a codec in capitals.
abbrev capital_config : Config
capital_config = record default_config {
  kafka = record (default_config.kafka) { compression = str "GZIP" };
}

capital_validates : validate same_unicode capital_config ≡ none
unfolding validate check_kafka check_brokers check_broker check_address check_parts check_port
    split_host_port atoi text_eq one_of to_lower check_stream check_workers check_batch
    check_routing check_schema check_reconnect check_monitoring check_grpc_addr ltb_f
capital_validates = refl

capital-IsValid : IsValid same_unicode capital_config
capital-IsValid = (validate_iff same_unicode capital_config).0 capital_validates

compression_of_valid_example :
    ((str "GZIP" ≡ to_lower same_unicode (str "GZIP"))
      × (codec_name (parse_compression (str "GZIP")) ≡ str "GZIP"))
    ⊎ ((str "GZIP" ≢ to_lower same_unicode (str "GZIP"))
        × (parse_compression (str "GZIP") ≡ compression_none))
compression_of_valid_example = compression_of_valid same_unicode capital_config capital-IsValid

abbrev default_reconnect : ReconnectConfig
default_reconnect = default_config.tetragon.stream.reconnect

get_reconnect_backoff_exact_example : get_reconnect_backoff default_reconnect (pos 3) ≡ 8000000000
get_reconnect_backoff_exact_example =
    get_reconnect_backoff_exact default_reconnect 3 default-IsValid.reconnect (omega arith)

get_reconnect_backoff_wraps_example : get_reconnect_backoff default_reconnect (pos 60) ≡ 0
get_reconnect_backoff_wraps_example =
    get_reconnect_backoff_wraps default_reconnect 60 default-IsValid.reconnect (omega arith)

-- A cluster that is the list of its topics.
abbrev pub list_admin : ClusterAdmin
list_admin = record {
  Cluster = List Text;
  list_topics = λ c. some c;
  create_topic = λ c topic d. (true, topic ∷ c);
}

abbrev creating : TopicAdminConfig
creating = record (default_config.kafka.topic_admin) { auto_create = true }

abbrev two_topics : List Text
two_topics = str "tetragon.process.exec" ∷ str "tetragon.dlq" ∷ []

-- A cluster that refuses to create one.
abbrev refusing_admin : ClusterAdmin
refusing_admin = record {
  Cluster = List Text;
  list_topics = λ c. some c;
  create_topic = λ c topic d. (false, c);
}

one_is_counted : (ensure_topics refusing_admin creating (str "tetragon.dlq" ∷ []) two_topics).1 ≡ 1
unfolding ensure_topics ensure_loop create_compacted_topic topic_detail one_of text_eq
one_is_counted = refl

abbrev localhost : Text
localhost = str "localhost"

check_address-join_example :
    (check_address (localhost ++ b':' ∷ decimal 9092) ≡ none)
    × (split_host_port (localhost ++ b':' ∷ decimal 9092) ≡ split_ok localhost (decimal 9092))
    × (atoi (decimal 9092) ≡ atoi_ok (pos 9092))
check_address-join_example =
    check_address-join localhost 9092 (λ e. cc) refl refl refl (omega arith) (omega arith)
