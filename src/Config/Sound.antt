-- ===== src/Config/Sound.antt =====
-- Validate of internal/config/validator.go against the description of a valid configuration.
use tetragon_kafka_adapter.Prelude.{
  is_empty, ◌≡◌, refl, ◌≢◌, ◌↔◌, [], ◌∷◌, none, Text, str, one_of_iff, to_lower, arith, pos, ◌≤ℤ◌,
}
use tetragon_kafka_adapter.Config.{
  Config, KafkaConfig, StreamConfig, BatchConfig, MonitoringConfig, RoutingConfig, SchemaConfig,
  ReconnectConfig,
}
use tetragon_kafka_adapter.Config.Validator.{
  check_kafka, check_stream, check_workers, check_batch, check_routing, check_schema,
  check_reconnect, check_monitoring, check_grpc_addr, validate, fail_if, grpc_addr_required,
}
use tetragon_kafka_adapter.Config.Valid.{
  IsValidKafka, IsValidStream, IsValidBatch, IsValidReconnect, IsValidRouting, IsValidSchema,
  IsValidMonitoring, IsValid,
}
use tetragon_kafka_adapter.Config.Addresses.{
  check_brokers_iff, check_grpc_addr_iff, IsAddress-ne-nil,
}

check_batch_iff : (b : BatchConfig) → (check_batch b ≡ none) ↔ IsValidBatch b
unfolding check_batch
check_batch_iff b = (λ h. ground arith, λ v. ground arith)

check_reconnect_iff : (r : ReconnectConfig) → (check_reconnect r ≡ none) ↔ IsValidReconnect r
unfolding check_reconnect
check_reconnect_iff r = (λ h. ground arith, λ v. ground arith)

check_stream_iff : (s : StreamConfig) → (check_stream s ≡ none) ↔ IsValidStream s
unfolding check_stream
check_stream_iff s = (λ h. ground arith, λ v. ground arith)

check_workers_iff :
    (k : KafkaConfig)
    → (check_workers k ≡ none) ↔ ((pos 1 ≤ℤ k.writer_workers) × (k.writer_workers ≤ℤ pos 1000))
unfolding check_workers
check_workers_iff k = (λ h. ground arith, λ v. ground arith)

check_monitoring_iff : (m : MonitoringConfig) → (check_monitoring m ≡ none) ↔ IsValidMonitoring m
unfolding check_monitoring
check_monitoring_iff m = (λ h. ground arith, λ v. ground arith)

check_schema_iff : (s : SchemaConfig) → (check_schema s ≡ none) ↔ IsValidSchema s
unfolding check_schema
check_schema_iff s =
    let mode = one_of_iff s.mode (str "stable_json" ∷ str "raw_string_fallback" ∷ []) in
    let format = one_of_iff s.format (str "json" ∷ str "protobuf" ∷ []) in
    (λ h. ground (arith, mode, format), λ v. ground (arith, mode, format))

check_routing_iff : (r : RoutingConfig) → (check_routing r ≡ none) ↔ IsValidRouting r
unfolding check_routing
check_routing_iff r =
    let mode =
      one_of_iff r.partition_key.mode
        (str "deduplication" ∷ str "fields_concat" ∷ str "hash" ∷ str "random" ∷ []) in
    (λ h. ground (arith, mode), λ v. ground (arith, mode))

check_kafka_iff :
    (unicode : Text → Text) (k : KafkaConfig)
    → (check_kafka unicode k ≡ none) ↔ IsValidKafka unicode k
unfolding check_kafka
check_kafka_iff unicode k =
    let acks = one_of_iff (to_lower unicode k.acks) (str "all" ∷ str "1" ∷ str "0" ∷ []) in
    let codec =
      one_of_iff (to_lower unicode k.compression)
        (str "none" ∷ str "gzip" ∷ str "snappy" ∷ str "lz4" ∷ str "zstd" ∷ []) in
    let bs = check_brokers_iff k.brokers in
    (λ h. ground (arith, acks, codec, bs), λ v. ground (arith, acks, codec, bs))

validate_parts :
    (unicode : Text → Text) (cfg : Config)
    → validate unicode cfg ≡ none
    → (cfg.tetragon.grpc_addr ≢ [])
      × (check_kafka unicode cfg.kafka ≡ none)
      × (check_stream cfg.tetragon.stream ≡ none)
      × (check_workers cfg.kafka ≡ none)
      × (check_batch cfg.kafka.batch ≡ none)
      × (check_routing cfg.routing ≡ none)
      × (check_schema cfg.schema ≡ none)
      × (check_reconnect cfg.tetragon.stream.reconnect ≡ none)
      × (check_monitoring cfg.monitoring ≡ none)
      × (check_grpc_addr cfg.tetragon.grpc_addr ≡ none)
unfolding validate
validate_parts unicode cfg h = ground arith

not_empty : (a : Text) → a ≢ [] → fail_if (is_empty a) grpc_addr_required none ≡ none
not_empty [] h = absurd (h refl)
not_empty (c ∷ a) h = refl

validate→IsValid :
    (unicode : Text → Text) (cfg : Config) → validate unicode cfg ≡ none → IsValid unicode cfg
validate→IsValid unicode cfg h =
    let (addr, k, s, w, b, r, sc, rc, m, g) = validate_parts unicode cfg h in
    record {
      kafka = (check_kafka_iff unicode cfg.kafka).0 k;
      workers_low = ((check_workers_iff cfg.kafka).0 w).0;
      workers_high = ((check_workers_iff cfg.kafka).0 w).1;
      stream = (check_stream_iff cfg.tetragon.stream).0 s;
      batch = (check_batch_iff cfg.kafka.batch).0 b;
      routing = (check_routing_iff cfg.routing).0 r;
      schema = (check_schema_iff cfg.schema).0 sc;
      reconnect = (check_reconnect_iff cfg.tetragon.stream.reconnect).0 rc;
      monitoring = (check_monitoring_iff cfg.monitoring).0 m;
      grpc = (check_grpc_addr_iff cfg.tetragon.grpc_addr addr).0 g;
    }

IsValid→validate :
    (unicode : Text → Text) (cfg : Config) → IsValid unicode cfg → validate unicode cfg ≡ none
unfolding validate
IsValid→validate unicode cfg v =
    let addr = IsAddress-ne-nil cfg.tetragon.grpc_addr v.grpc in
    let k = (check_kafka_iff unicode cfg.kafka).1 v.kafka in
    let w = (check_workers_iff cfg.kafka).1 (v.workers_low, v.workers_high) in
    let s = (check_stream_iff cfg.tetragon.stream).1 v.stream in
    let b = (check_batch_iff cfg.kafka.batch).1 v.batch in
    let r = (check_routing_iff cfg.routing).1 v.routing in
    let sc = (check_schema_iff cfg.schema).1 v.schema in
    let rc = (check_reconnect_iff cfg.tetragon.stream.reconnect).1 v.reconnect in
    let m = (check_monitoring_iff cfg.monitoring).1 v.monitoring in
    let g = (check_grpc_addr_iff cfg.tetragon.grpc_addr addr).1 v.grpc in
    rw (k, s, w, b, r, sc, rc, m, g) (not_empty cfg.tetragon.grpc_addr addr)

-- Validate accepts a configuration exactly when it is valid, whatever strings.ToLower does outside
-- ASCII: every broker and the gRPC address are host:port with a port in 1..65535, the client has a
-- name, acks, compression, key mode, schema mode and format are among the listed words, queue,
-- workers, batch, backoff and (where enabled) ports lie in their ranges, the sample ratio is not
-- below 0 or above 1, the maximal backoff is not below the initial one, and the ports differ.
pub validate_iff :
    (unicode : Text → Text) (cfg : Config) → (validate unicode cfg ≡ none) ↔ IsValid unicode cfg
validate_iff unicode cfg = (validate→IsValid unicode cfg, IsValid→validate unicode cfg)
