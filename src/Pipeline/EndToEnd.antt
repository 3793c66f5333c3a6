-- ===== src/Pipeline/EndToEnd.antt =====
-- An event's way through cmd/consumer/main.go and internal/kafka/writer.go, from its arrival to the
-- Kafka client.
use tetragon_kafka_adapter.Prelude.{
  ℕ, ◌≤◌, ◌≡◌, ◌≢◌, refl, ◌∙◌, sym, ap, ℤ, pos, ◌≤ℤ◌, Bool, true, false, List, [], map, some, Text,
  str, length, length-map, leb_f, one_f, arith,
}
use tetragon_kafka_adapter.Prelude.Every.{All}
use tetragon_kafka_adapter.Config.{StreamConfig, PartitionKeyConfig, SchemaConfig}
use tetragon_kafka_adapter.Tetragon.{TetragonApi}
use tetragon_kafka_adapter.Router.{Router}
use tetragon_kafka_adapter.Queue.{Queue}
use tetragon_kafka_adapter.Kafka.Writer.{Message, Writer}
use tetragon_kafka_adapter.Kafka.Worker.{WorkerEvent, start, worker_run}
use tetragon_kafka_adapter.Kafka.Worker.Batches.{concat, received, worker_run-start}
use tetragon_kafka_adapter.Pipeline.{Codecs}
use tetragon_kafka_adapter.Queue.{holding}
use tetragon_kafka_adapter.Pipeline.Loops.{
  Arrival, Departure, process_events, write_to_kafka, flush_all,
}
use tetragon_kafka_adapter.Pipeline.Passing.{
  AllSizes-mono, other_side, events_of, process_events_whole, expected, IsPlain, items_of,
  write_to_kafka_whole, flush_all_whole,
}

module _ (api : TetragonApi) (codecs : Codecs (api.Event)) (keys : PartitionKeyConfig) (r : Router)
    (json : api.Event → Text) (time : api.Event → ℤ) where
  open api use {Event}

  -- In drop mode with every event sampled, in JSON, let events arrive that protojson can marshal and
  -- that have a time; let the empty queue and the empty, open writer have room for all of them, and
  -- let writeToKafka make as many turns. If a worker takes what is then in the writer, in whatever
  -- rhythm of ticks, and returns, and the contexts of its flushes outlast their batches, then the
  -- client gets for every event, in the order of arrival, the one message with its topic, key,
  -- JSON, time and type.
  pub flush_all-process_events :
      (stream : StreamConfig) (schema : SchemaConfig) (q : Queue Event) (w : Writer Event)
      (arrivals : List (Arrival Event)) (departures : List Departure) (max : ℤ)
      (es : List (WorkerEvent (Message Event))) (admitted : ℕ) (dlq_sends dlq_waits : ℕ → ℕ → Bool)
      (nows : ℕ → ℤ)
      → leb_f one_f stream.sample_ratio ≡ true
      → q.drop_if_queue_full ≡ true
      → q.ch.items ≡ []
      → length arrivals ≤ q.ch.capacity
      → schema.format ≢ str "protobuf"
      → All (IsPlain api codecs keys r json time) (events_of arrivals)
      → length departures ≡ length arrivals
      → w.message_ch.closed ≡ false
      → w.message_ch.items ≡ []
      → length arrivals ≤ w.message_ch.capacity
      → pos 1 ≤ℤ max
      → max ≤ℤ pos admitted
      → received max start es
        ≡ items_of
            (write_to_kafka api codecs keys schema r
              (process_events api stream q arrivals)
              (some w)
              departures).1
      → (worker_run max start es).running ≡ false
      → flush_all api admitted dlq_sends dlq_waits nows r 0 (worker_run max start es).flushed
        ≡ map (expected api codecs keys r json time) (events_of arrivals)
  flush_all-process_events stream schema q w arrivals departures max es admitted ds dw nows s d qe
        ql f plain n o we wl low high takes over =
      let events = events_of arrivals in
      let same : length events ≡ length arrivals = length-map arrivals (λ a. a.event) in
      let filled : process_events api stream q arrivals ≡ holding q events =
        process_events_whole api stream q arrivals s d (rw qe (omega arith)) ∙ rw qe refl in
      let (w', run, carried) =
        write_to_kafka_whole api codecs keys r json time schema q events [] w departures f plain
          (n ∙ sym same) o (rw we (omega (arith, same))) (rw we tt) in
      let left : items_of
            (write_to_kafka api codecs keys schema r (process_events api stream q arrivals) (some w)
              departures).1
          ≡ w'.message_ch.items =
        ap (λ p. items_of (write_to_kafka api codecs keys schema r p (some w) departures).1) filled
        ∙ ap (λ x. items_of x.1) run in
      let (whole, sizes, below, ends) = worker_run-start max es low in
      let flushed : concat (worker_run max start es).flushed ≡ w'.message_ch.items =
        other_side _ over ends ∙ takes ∙ left in
      flush_all_whole api codecs keys r json time admitted ds dw nows 0
        (worker_run max start es).flushed events (AllSizes-mono max (pos admitted) _ high sizes)
        (rw flushed carried)
