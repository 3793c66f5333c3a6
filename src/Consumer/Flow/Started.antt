-- ===== src/Consumer/Flow/Started.antt =====
-- The goroutines of cmd/consumer/main.go on the components that its start has made.
use mathlib.Core.List.{Sublist}
use tetragon_kafka_adapter.Prelude.{
  ℤ, pos, negsuc, ◌≡◌, ◌∙◌, ap, inl, inr, Bool, List, [], ◌++◌, Option, none, some, Text,
  Option-cases, arith,
}
use tetragon_kafka_adapter.Prelude.Bags.{bag}
use tetragon_kafka_adapter.Channel.{Channel}
use tetragon_kafka_adapter.Metrics.{Metric}
use tetragon_kafka_adapter.Config.{Config, StreamConfig}
use tetragon_kafka_adapter.Config.Validator.{validate}
use tetragon_kafka_adapter.Tetragon.{TetragonApi}
use tetragon_kafka_adapter.Grpc.Client.{Client}
use tetragon_kafka_adapter.Queue.{Queue, new_queue}
use tetragon_kafka_adapter.Kafka.TopicAdmin.{ClusterAdmin}
use tetragon_kafka_adapter.Kafka.Producer.{Producer, new_producer}
use tetragon_kafka_adapter.Kafka.Writer.{Writer, new_writer}
use tetragon_kafka_adapter.Pipeline.{Codecs}
use tetragon_kafka_adapter.Consumer.Startup.{
  panics, Start, runs, exits, Service, Surroundings, with_topics, writer_for, make_events,
  connected, checked, or_exit, started_with, start_service,
}
use tetragon_kafka_adapter.Consumer.Flow.{Flow, start_flow, FlowReach}
use tetragon_kafka_adapter.Consumer.Flow.Places.{held, events_in, places}
use tetragon_kafka_adapter.Consumer.Flow.Kept.{FlowReach-places}
use tetragon_kafka_adapter.Consumer.Flow.Ordered.{FlowReach-Sublist}

make_events-empty : {E : Type 0} (n : ℤ) (ch : Channel E) → make_events n ≡ runs ch → ch.items ≡ []
make_events-empty (pos n) ch h = cc
make_events-empty (negsuc n) ch h = cc

new_queue-empty :
    {E : Type 0} (cfg : StreamConfig) (q : Queue E)
    → or_exit panics (new_queue cfg) ≡ runs q
    → q.ch.items ≡ []
unfolding new_queue
new_queue-empty cfg q h = ground arith

writer_for-empty :
    {E : Type 0} (cfg : Config) (p : Option Producer) (w : Writer E)
    → writer_for cfg p ≡ runs (some w)
    → w.message_ch.items ≡ []
unfolding new_writer
writer_for-empty cfg none w h = cc
writer_for-empty cfg (some p) w h = ground arith

module _ (unicode : Text → Text) (fold : Text → Text → Bool) (admin : ClusterAdmin)
    (E : Type 0) where
  open admin use {Cluster}

  started-parts :
      (s : Surroundings unicode fold admin E) (cfg : Config) (client : Start Client)
      (queue : Start (Queue E)) (topics : Start (Cluster × List Metric))
      (made : Option Producer × List Metric) (writer : Start (Option (Writer E)))
      (events : Start (Channel E)) (v : Service E Cluster)
      → started_with unicode fold admin E s cfg client queue topics made writer events ≡ runs v
      → (queue ≡ runs v.queue) × (writer ≡ runs v.writer) × (events ≡ runs v.grpc_event_ch)
  unfolding started_with
  started-parts s cfg (exits e) q t made w ch v h = cc
  started-parts s cfg (runs c) (exits e) t made w ch v h = cc
  started-parts s cfg (runs c) (runs q) (exits e) made w ch v h = cc
  started-parts s cfg (runs c) (runs q) (runs t) made (exits e) ch v h = cc
  started-parts s cfg (runs c) (runs q) (runs t) made (runs w) (exits e) v h = cc
  started-parts s cfg (runs c) (runs q) (runs t) made (runs w) (runs ch) v h = (cc, cc, cc)

  start_service-empty :
      (s : Surroundings unicode fold admin E) (cfg : Config) (v : Service E Cluster) (w : Writer E)
      → start_service unicode fold admin E s (some cfg) ≡ runs v
      → v.writer ≡ some w
      → (v.queue.ch.items ≡ []) × (w.message_ch.items ≡ []) × (v.grpc_event_ch.items ≡ [])
  unfolding start_service
  start_service-empty s cfg v w h hw = elim (Option-cases (validate unicode cfg)) [
    | inl valid ↦
        let made = new_producer s.producer_connects cfg.kafka in
        let (q, wr, ch) =
          started-parts s cfg (connected s.grpc cfg)
            (or_exit panics (new_queue cfg.tetragon.stream))
            (with_topics unicode fold admin E s cfg) made (writer_for cfg made.0)
            (make_events cfg.tetragon.stream.max_queue) v (rw (valid, checked) at h) in
        (
          new_queue-empty cfg.tetragon.stream v.queue q,
          writer_for-empty cfg made.0 w (wr ∙ ap runs hw),
          make_events-empty cfg.tetragon.stream.max_queue v.grpc_event_ch ch,
        )
    | inr (e, failed) ↦ cc (rw (failed, checked) at h)
  ]

module _ (unicode : Text → Text) (fold : Text → Text → Bool) (admin : ClusterAdmin)
    (api : TetragonApi) (codecs : Codecs api.Event) where
  open admin use {Cluster}
  open api use {Event}

  -- A service that main has started with a producer, from whatever configuration: whatever its
  -- goroutines then do and in any order, the bag of the events that ReadEvents has delivered is the
  -- bag of those in all the places where an event can be; and the events of the accepted messages,
  -- then those that writeToKafka holds, of the queue, that processEvents holds and of the channel of
  -- main are together a sublist of the events delivered.
  pub start_service-FlowReach :
      (s : Surroundings unicode fold admin Event) (cfg : Config) (v : Service Event Cluster)
      (w : Writer Event) (opens : Bool) (t : Flow Event)
      → start_service unicode fold admin Event s (some cfg) ≡ runs v
      → v.writer ≡ some w
      → FlowReach api codecs cfg.tetragon.stream cfg.routing.partition_key cfg.schema v.router
          cfg.kafka.batch.max_messages
          (start_flow opens v.grpc_event_ch v.queue w)
          t
      → (bag t.delivered ≡ bag (places t))
        × Sublist
            (events_in t.pool.accepted
              ++ (held t.writing
                  ++ (t.queue.ch.items ++ (held t.processing ++ t.grpc_event_ch.items))))
            t.delivered
  start_service-FlowReach s cfg v w opens t h hw r =
      let (q, m, c) = start_service-empty unicode fold admin Event s cfg v w h hw in
      (
        FlowReach-places api codecs cfg.tetragon.stream cfg.routing.partition_key cfg.schema
            v.router cfg.kafka.batch.max_messages opens v.grpc_event_ch v.queue w t c q m r,
        FlowReach-Sublist api codecs cfg.tetragon.stream cfg.routing.partition_key cfg.schema
            v.router cfg.kafka.batch.max_messages opens v.grpc_event_ch v.queue w t c q r,
      )
