-- ===== src/Lib.antt =====
-- tetragon-kafka-adapter: a service that reads events of Tetragon from a gRPC stream and writes
-- them to Kafka topics.
--
-- An event passes through the parts in this order:
--   ReadEvents (internal/grpc/stream.go) receives it and hands it to a channel;
--   processEvents (cmd/consumer/main.go) samples it and pushes it to the event queue;
--   writeToKafka (cmd/consumer/main.go) pops it, normalizes it, chooses topic and key, and passes a
--   message to the writer's queue;
--   the writer's workers (internal/kafka/writer.go) gather messages into batches and flush each batch
--   to the Kafka client, and what is left after a cancellation to the dead letter topic.
-- RunWithReconnect (internal/grpc/reconnect.go) restarts the stream, the configuration
-- (internal/config) is validated before anything starts, and a health server reports the state.
--
-- Files:
--   Prelude: numbers, float64 by bit pattern, strings as lists of bytes, lists. Channel: Go's
--     buffered channels. Metrics: counters and gauges of internal/metrics/prometheus.go; a
--     function returns the changes that it makes to them. Metrics.Memory: UpdateMemoryMetrics.
--     Metrics.Declared and Registry: the declarations and their registration.
--   Config: the records of internal/config/config.go. Config.Default: DefaultConfig.
--     Config.Validator: Validate. Config.Address: net.SplitHostPort and strconv.Atoi.
--     Config.Loader: Load, bindEnvVars. Config.Valid: what a valid configuration is.
--     Config.Backoff: GetReconnectBackoff.
--   Tetragon: the accessors of Tetragon's generated event type, a parameter of the development.
--   Queue: NewQueue, Push, Pop, Close, Size, Capacity of internal/queue/queue.go. Queue.Sampler:
--     ShouldSample. Queue.Fifo: sequences of calls. Queue.Gauge: updateMetricsLoop.
--   Router: NewRouter, Route, GetDLQTopic, DetectEventType, GetEventNode of internal/router.
--   Schema and Normalize: internal/schema/v1/schema.go and internal/normalize/normalizer.go.
--   Kafka.PartitionKey: GenerateDedupKey. Kafka.Producer: SendMessage, the client's settings,
--     the result loops. Kafka.Writer: NewWriter, Write, Close. Kafka.Worker: worker. Kafka.Pool:
--     Start, Write, Close and the workers over one channel, as a step relation.
--     Kafka.Pool.Drained, Progress and Ending: its runs to the end. Kafka.Flush:
--     flushBatch and writeToDLQ. Kafka.TopicAdmin: EnsureTopics. All of internal/kafka.
--   Grpc.Client, Grpc.Stream, Grpc.Reconnect: NewClient, ReadEvents, RunWithReconnect of
--     internal/grpc.
--   Health: the flags and handlers of internal/health/server.go.
--   Logger: Init, InitSimple, GetLogger of internal/logger/logger.go and the two calls in
--     cmd/consumer/main.go. Logger.Core: internal/logger/kafka_core.go, its queue, worker,
--     fields and the cores that With makes.
--   Consumer.Startup and Consumer.Shutdown: main of cmd/consumer/main.go, from the configuration
--     to the signal and from the signal to the end.
--   Consumer.Flow: the goroutines that main starts and the channels between them, as a step
--     relation; below it its events, their order and its metrics, the whole from the start
--     (Started), and how the goroutines end after the cancellation (Left, Finishing, Ended).
--   Consumer.Probes: /health over the life of main, with Start and Shutdown of
--     internal/health/server.go.
--   Pipeline: one turn of processEvents and of writeToKafka.
--     Pipeline.Loops: both loops, and the flushes of a worker, over many turns;
--     Pipeline.EndToEnd: from the arrival to the client. Pipeline.Transform:
--     shouldLogDataTransform.
--   Tests: sample values and runs.
--
-- How the code is read. A function on a shared object takes the object's state and returns the
-- next one. A select becomes an argument that says which ready case Go takes, a context or a
-- network call an argument that says how it ends, so that a statement for all arguments holds for
-- every interleaving of the modelled calls. A loop over such choices runs over a list of them, one
-- element for each turn, and stays where it is once it has returned. The one fuel is that of the
-- decimal digits: 20, enough for every number below 10 ^ 20 and so for 64 bits. int64 durations
-- are words modulo 2 ^ 64; other ints are unbounded, which is exact within the validated bounds. A
-- make of a negative size and a send on a closed channel are results of the model.
--
-- Parameters: Tetragon's accessors; protojson, proto and json marshalling; time formats; SHA-256;
-- random bytes; strings.ToLower and strings.EqualFold outside ASCII; zap's encoder; the Kafka
-- cluster; files, certificates and dialling; Prometheus' registerer.
--
-- Not modelled: what the log calls write, all histograms, the gauges of stream uptime and
-- batch error rate, the decoding of the configuration file, the waits of main that only time
-- out, the calls that only hand on to a library (GetEventsClient, NewTopicAdmin, Sync of logger.go, the
-- Close of the gRPC client and of the topic admin, the server of /metrics), and what net/http,
-- gRPC, zap and the Kafka client do inside.
pub mod Channel
pub mod Config
pub mod Consumer
pub mod Grpc
pub mod Health
pub mod Kafka
pub mod Logger
pub mod Metrics
pub mod Normalize
pub mod Pipeline
pub mod Prelude
pub mod Queue
pub mod Router
pub mod Schema
pub mod Tests
pub mod Tetragon
