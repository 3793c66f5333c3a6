-- ===== src/Consumer/Flow/Arrivals.antt =====
-- One turn of processEvents or of writeToKafka of cmd/consumer/main.go, in the counts of its metrics.
use tetragon_kafka_adapter.Prelude.{
  ◌≤◌, ◌+◌, ◌≡◌, ◌≢◌, Bool, List, [], ◌∷◌, Float64, length, length-append, arith,
}
use tetragon_kafka_adapter.Config.{StreamConfig}
use tetragon_kafka_adapter.Tetragon.{TetragonApi}
use tetragon_kafka_adapter.Queue.{Queue, blocks, push}
use tetragon_kafka_adapter.Queue.Sampler.{should_sample}
use tetragon_kafka_adapter.Pipeline.{pushed, process_event}
use tetragon_kafka_adapter.Pipeline.Accounts.{arrival_count}
use tetragon_kafka_adapter.Consumer.Flow.{if_refused}

module _ (api : TetragonApi) where
  open api use {Event}

  pub process_event-arrivals :
      (stream : StreamConfig) (draw : Float64) (done pick : Bool) (q : Queue Event) (e : Event)
      (refused : List Event)
      → let r = process_event api stream draw done pick q e in
        r.0 ≢ pushed blocks
        → length r.1.ch.items + length (if_refused r.0 e refused)
          ≡ arrival_count r.2 + length q.ch.items + length refused
  unfolding process_event should_sample push arrival_count
  process_event-arrivals stream draw done pick q e refused nb =
      ground (arith, length-append q.ch.items (e ∷ []), length-append refused (e ∷ []))

  pub process_event-prompt :
      (stream : StreamConfig) (draw : Float64) (done pick : Bool) (q : Queue Event) (e : Event)
      → arrival_count (process_event api stream draw done pick q e).2 ≤ 1
  unfolding process_event should_sample push arrival_count
  process_event-prompt stream draw done pick q e = ground arith
