-- ===== src/Config/Validator.antt =====
-- Validate of internal/config/validator.go: one definition for each commented block, each a chain
-- of tests that returns the first error (`none` is Go's nil).
use tetragon_kafka_adapter.Prelude.{
  ◌*◌, Bool, true, false, ◌||◌, ◌&&◌, not, List, [], ◌∷◌, Option, none, some, Text, str, is_empty,
  one_of, to_lower, ℤ, pos, ltb_ℤ, leb_ℤ, eqb_ℤ, ltb_f, zero_f, one_f, if◌then◌else◌,
}
use tetragon_kafka_adapter.Config.{Config, KafkaConfig, StreamConfig, BatchConfig, MonitoringConfig}
use tetragon_kafka_adapter.Config.{RoutingConfig, SchemaConfig, ReconnectConfig}
use tetragon_kafka_adapter.Config.Address.{
  AddrError, Split, split_ok, split_err, AtoiError, Atoi, atoi_ok, atoi_err, split_host_port, atoi,
}

pub data AddressError : Type 0 where
  bad_format : AddrError → AddressError
  empty_host empty_port : AddressError
  bad_port : AtoiError → AddressError
  port_out_of_range : ℤ → AddressError

pub data ConfigError : Type 0 where
  grpc_addr_required brokers_required empty_broker client_id_required : ConfigError
  invalid_broker : Text → AddressError → ConfigError
  invalid_acks invalid_compression : ConfigError
  max_queue_not_positive max_queue_too_large sample_ratio_out_of_range : ConfigError
  workers_not_positive workers_too_large : ConfigError
  max_messages_not_positive max_messages_too_large : ConfigError
  flush_interval_not_positive flush_interval_too_large : ConfigError
  max_bytes_not_positive max_bytes_too_large : ConfigError
  topics_required invalid_key_mode invalid_schema_mode invalid_schema_format : ConfigError
  initial_backoff_not_positive initial_backoff_too_large : ConfigError
  max_backoff_not_positive max_backoff_too_large max_backoff_below_initial : ConfigError
  health_port_out_of_range metrics_port_out_of_range same_ports : ConfigError
  pprof_port_out_of_range pprof_port_taken : ConfigError
  invalid_grpc_addr : Text → AddressError → ConfigError

-- `if b { return fmt.Errorf(…) }`, and what follows it.
abbrev pub fail_if {ℓ} : {E : Type ℓ} → Bool → E → Option E → Option E
fail_if true e rest = some e
fail_if false e rest = rest

-- One block of tests, then the next.
infixr 20 ◌then_check◌
abbrev pub ◌then_check◌ {ℓ} : {E : Type ℓ} → Option E → Option E → Option E
some e then_check rest = some e
none then_check rest = rest

abbrev pub out_of_range : ℤ → Bool
out_of_range p = leb_ℤ p (pos 0) || ltb_ℤ (pos 65535) p

unfoldable pub check_port : Atoi → Option AddressError
check_port (atoi_err e) = some (bad_port e)
check_port (atoi_ok n) = fail_if (out_of_range n) (port_out_of_range n) none

unfoldable pub check_parts : Split → Option AddressError
unfolding check_port
check_parts (split_err e) = some (bad_format e)
check_parts (split_ok host port) =
    fail_if (is_empty host) empty_host (fail_if (is_empty port) empty_port (check_port (atoi port)))

unfoldable pub check_address : Text → Option AddressError
unfolding check_parts
check_address s = check_parts (split_host_port s)

abbrev tag : (AddressError → ConfigError) → Option AddressError → Option ConfigError
tag f none = none
tag f (some e) = some (f e)

unfoldable pub check_broker : Text → Option ConfigError
check_broker b = fail_if (is_empty b) empty_broker (tag (invalid_broker b) (check_address b))

unfoldable pub check_brokers : List Text → Option ConfigError
check_brokers [] = none
check_brokers (b ∷ bs) = check_broker b then_check check_brokers bs

abbrev no_brokers : List Text → Bool
no_brokers [] = true
no_brokers (b ∷ bs) = false

unfoldable pub check_kafka : (Text → Text) → KafkaConfig → Option ConfigError
check_kafka unicode k = fail_if (no_brokers k.brokers) brokers_required (
    check_brokers k.brokers
    then_check fail_if (is_empty k.client_id) client_id_required (
        fail_if (not (one_of (to_lower unicode k.acks) (str "all" ∷ str "1" ∷ str "0" ∷ [])))
          invalid_acks
          (fail_if
            (not (
              one_of (to_lower unicode k.compression)
                (str "none" ∷ str "gzip" ∷ str "snappy" ∷ str "lz4" ∷ str "zstd" ∷ [])))
            invalid_compression none)))

unfoldable pub check_stream : StreamConfig → Option ConfigError
check_stream s = fail_if (leb_ℤ s.max_queue (pos 0)) max_queue_not_positive (
    fail_if (ltb_ℤ (pos 1000000) s.max_queue) max_queue_too_large (
      fail_if (ltb_f s.sample_ratio zero_f || ltb_f one_f s.sample_ratio) sample_ratio_out_of_range
        none))

unfoldable pub check_workers : KafkaConfig → Option ConfigError
check_workers k =
    fail_if (leb_ℤ k.writer_workers (pos 0)) workers_not_positive
      (fail_if (ltb_ℤ (pos 1000) k.writer_workers) workers_too_large none)

unfoldable pub check_batch : BatchConfig → Option ConfigError
check_batch b = fail_if (leb_ℤ b.max_messages (pos 0)) max_messages_not_positive (
    fail_if (ltb_ℤ (pos 100000) b.max_messages) max_messages_too_large (
      fail_if (leb_ℤ b.flush_interval_ms (pos 0)) flush_interval_not_positive (
        fail_if (ltb_ℤ (pos 60000) b.flush_interval_ms) flush_interval_too_large (
          fail_if (leb_ℤ b.max_bytes (pos 0)) max_bytes_not_positive
            (fail_if (ltb_ℤ (pos (100 * 1024 * 1024)) b.max_bytes) max_bytes_too_large none)))))

abbrev no_topics : List (Text × Text) → Bool
no_topics [] = true
no_topics (t ∷ ts) = false

unfoldable pub check_routing : RoutingConfig → Option ConfigError
check_routing r = fail_if (no_topics r.topics) topics_required (
    fail_if
      (not (
        one_of r.partition_key.mode
          (str "deduplication" ∷ str "fields_concat" ∷ str "hash" ∷ str "random" ∷ [])))
      invalid_key_mode none)

unfoldable pub check_schema : SchemaConfig → Option ConfigError
check_schema s =
    fail_if (not (one_of s.mode (str "stable_json" ∷ str "raw_string_fallback" ∷ [])))
      invalid_schema_mode
      (fail_if (not (is_empty s.format) && not (one_of s.format (str "json" ∷ str "protobuf" ∷ [])))
        invalid_schema_format none)

unfoldable pub check_reconnect : ReconnectConfig → Option ConfigError
check_reconnect r = fail_if (leb_ℤ r.initial_backoff_seconds (pos 0)) initial_backoff_not_positive (
    fail_if (ltb_ℤ (pos 3600) r.initial_backoff_seconds) initial_backoff_too_large (
      fail_if (leb_ℤ r.max_backoff_seconds (pos 0)) max_backoff_not_positive (
        fail_if (ltb_ℤ (pos 3600) r.max_backoff_seconds) max_backoff_too_large (
          fail_if (ltb_ℤ r.max_backoff_seconds r.initial_backoff_seconds) max_backoff_below_initial
            none))))

unfoldable pub check_pprof : MonitoringConfig → Option ConfigError
check_pprof m = fail_if (out_of_range m.pprof_port) pprof_port_out_of_range (
    fail_if (eqb_ℤ m.pprof_port m.health_port || eqb_ℤ m.pprof_port m.metrics_port) pprof_port_taken
      none)

unfoldable pub check_monitoring : MonitoringConfig → Option ConfigError
unfolding check_pprof
check_monitoring m =
    if m.enabled
    then fail_if (out_of_range m.health_port) health_port_out_of_range (
        fail_if (out_of_range m.metrics_port) metrics_port_out_of_range (
          fail_if (eqb_ℤ m.health_port m.metrics_port) same_ports
            (if m.pprof_enabled then check_pprof m else none)))
    else none

unfoldable pub check_grpc_addr : Text → Option ConfigError
check_grpc_addr a = if not (is_empty a) then tag (invalid_grpc_addr a) (check_address a) else none

unfoldable pub validate : (Text → Text) → Config → Option ConfigError
validate unicode cfg = fail_if (is_empty cfg.tetragon.grpc_addr) grpc_addr_required (
    check_kafka unicode cfg.kafka
    then_check check_stream cfg.tetragon.stream
    then_check check_workers cfg.kafka
    then_check check_batch cfg.kafka.batch
    then_check check_routing cfg.routing
    then_check check_schema cfg.schema
    then_check check_reconnect cfg.tetragon.stream.reconnect
    then_check check_monitoring cfg.monitoring
    then_check check_grpc_addr cfg.tetragon.grpc_addr)
