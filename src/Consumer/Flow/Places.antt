-- ===== src/Consumer/Flow/Places.antt =====
-- Where an event can be between ReadEvents and the batches of the writer's workers: the channels and
-- goroutines of cmd/consumer/main.go and internal/kafka/writer.go.
use tetragon_kafka_adapter.Prelude.{
  ◌+◌, ◌≡◌, ◌≢◌, refl, ◌∙◌, ap, Bool, false, List, [], ◌∷◌, ◌++◌, Option, none, some, arith,
  if◌then◌else◌,
}
use tetragon_kafka_adapter.Prelude.Bags.{count, count-append}
use tetragon_kafka_adapter.Kafka.Writer.{Message, Writer, written, queue_full, panics}
use tetragon_kafka_adapter.Kafka.Worker.{Worker}
use tetragon_kafka_adapter.Kafka.Worker.Batches.{handled}
use tetragon_kafka_adapter.Kafka.Pool.{Pool}
use tetragon_kafka_adapter.Kafka.Pool.Delivered.{total}
use tetragon_kafka_adapter.Pipeline.{Handled, wrote, normalize_failed, serialize_failed, no_writer}
use tetragon_kafka_adapter.Consumer.Flow.{Flow, with_writer, if_failed}
use tetragon_kafka_adapter.Consumer.Flow.Pools.{drop_whole, Written, passes, stops}

module _ {E : Type 0} where
  -- The event that a goroutine holds, if it does.
  abbrev pub held : Option E → List E
  held none = []
  held (some e) = e ∷ []

  unfoldable pub events_in : List (Message E) → List E
  events_in [] = []
  events_in (m ∷ ms) = held m.event ++ events_in ms

  unfoldable pub all_handled : List (Worker (Message E)) → List (Message E)
  all_handled [] = []
  all_handled (w ∷ ws) = handled w ++ all_handled ws

  -- The channel of main, what processEvents holds, has left out and was refused, the queue, what
  -- writeToKafka holds and could not write, the writer's channel, and its workers.
  unfoldable pub places : Flow E → List E
  places s =
      s.grpc_event_ch.items
      ++ (held s.processing
          ++ (s.skipped
              ++ (s.refused
                  ++ (s.queue.ch.items
                      ++ (held s.writing
                          ++ (s.failed
                              ++ (events_in s.pool.writer.message_ch.items
                                  ++ events_in (all_handled s.pool.workers))))))))

  module _ (p : E → Bool) where
    abbrev if_some : Option E → Bool
    if_some none = false
    if_some (some e) = p e

    abbrev pub of_event : Message E → Bool
    of_event m = if_some m.event

    abbrev pub Whole : Flow E → Type 0
    Whole s =
        count p s.delivered
        ≡ count p s.grpc_event_ch.items
          + count p (held s.processing)
          + count p s.skipped
          + count p s.refused
          + count p s.queue.ch.items
          + count p (held s.writing)
          + count p s.failed
          + count of_event s.pool.accepted

    count-held : (o : Option E) → count p (held o) ≡ (if if_some o then 1 else 0)
    unfolding count
    count-held none = refl
    count-held (some e) = refl

    count-events_in : (ms : List (Message E)) → count p (events_in ms) ≡ count of_event ms
    unfolding events_in count
    count-events_in [] = refl
    count-events_in (m ∷ ms) = ground (
      arith,
      count-held m.event,
      count-append p (held m.event) (events_in ms),
      count-events_in ms,
    )

    count-all_handled :
        (ws : List (Worker (Message E))) → count of_event (all_handled ws) ≡ total of_event ws
    unfolding all_handled count total
    count-all_handled [] = refl
    count-all_handled (w ∷ ws) =
        omega (arith, count-append of_event (handled w) (all_handled ws), count-all_handled ws)

    pub count-places :
        (s : Flow E)
        → Whole s
        → count of_event s.pool.accepted
          ≡ count of_event s.pool.writer.message_ch.items + total of_event s.pool.workers
        → count p s.delivered ≡ count p (places s)
    unfolding places
    count-places s w b =
        let waiting = events_in s.pool.writer.message_ch.items in
        let done = events_in (all_handled s.pool.workers) in
        omega (
          arith,
          w,
          b,
          count-events_in s.pool.writer.message_ch.items,
          count-events_in (all_handled s.pool.workers),
          count-all_handled s.pool.workers,
          count-append p s.grpc_event_ch.items (
              held s.processing
              ++ (s.skipped
                  ++ (s.refused
                      ++ (s.queue.ch.items
                          ++ (held s.writing ++ (s.failed ++ (waiting ++ done))))))),
          count-append p (held s.processing) (
              s.skipped
              ++ (s.refused
                  ++ (s.queue.ch.items ++ (held s.writing ++ (s.failed ++ (waiting ++ done)))))),
          count-append p s.skipped (
              s.refused
              ++ (s.queue.ch.items ++ (held s.writing ++ (s.failed ++ (waiting ++ done))))),
          count-append p s.refused
              (s.queue.ch.items ++ (held s.writing ++ (s.failed ++ (waiting ++ done)))),
          count-append p s.queue.ch.items (held s.writing ++ (s.failed ++ (waiting ++ done))),
          count-append p (held s.writing) (s.failed ++ (waiting ++ done)),
          count-append p s.failed (waiting ++ done),
          count-append p waiting done,
        )

    message-count :
        (m : Message E) (e : E) → m.event ≡ some e → count of_event (m ∷ []) ≡ count p (e ∷ [])
    unfolding count
    message-count m e h = ap (λ o. if if_some o then 1 else 0) h

    accepts-count :
        (pl : Pool E) (m : Message E) (w : Option (Writer E))
        → w
          ≡ some (record pl.writer {
            message_ch = record pl.writer.message_ch {
              items = pl.writer.message_ch.items ++ m ∷ [];
            };
          })
        → count of_event (with_writer pl w).accepted
          ≡ count of_event pl.accepted + count of_event (m ∷ [])
    accepts-count pl m w h =
        ap (λ o. count of_event (with_writer pl o).accepted) h
        ∙ ap (λ l. count of_event (pl.accepted ++ l))
            (drop_whole pl.writer.message_ch.items (m ∷ []))
        ∙ count-append of_event pl.accepted (m ∷ [])

    fails-count :
        (h : Handled) (e : E) (failed : List E)
        → h ≢ wrote written
        → count p (if_failed h e failed) ≡ count p failed + count p (e ∷ [])
    fails-count (wrote written) e failed n = elim (n refl) [ ]
    fails-count (wrote queue_full) e failed n = count-append p failed (e ∷ [])
    fails-count (wrote panics) e failed n = count-append p failed (e ∷ [])
    fails-count normalize_failed e failed n = count-append p failed (e ∷ [])
    fails-count serialize_failed e failed n = count-append p failed (e ∷ [])
    fails-count no_writer e failed n = count-append p failed (e ∷ [])

    pub Written-count :
        (pl : Pool E) (e : E) (h : Handled) (w : Option (Writer E)) (failed : List E)
        → Written pl e h w
        → count p (if_failed h e failed) + count of_event (with_writer pl w).accepted
          ≡ count p failed + count of_event pl.accepted + count p (e ∷ [])
    Written-count pl e h w failed (passes m same ok put_on whole) =
        let kept = ap (λ x. count p (if_failed x e failed)) ok in
        omega (arith, kept, accepts-count pl m w put_on, message-count m e same)
    Written-count pl e h w failed (stops n no_panic same) =
        let kept = ap (λ x. count of_event x.accepted) same in
        omega (arith, kept, fails-count h e failed n)
