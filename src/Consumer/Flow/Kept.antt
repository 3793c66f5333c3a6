-- ===== src/Consumer/Flow/Kept.antt =====
-- No event is lost between the goroutines of cmd/consumer/main.go and the writer's workers.
use tetragon_kafka_adapter.Prelude.{
  ℤ, ◌+◌, ◌≡◌, ◌≢◌, refl, ap, Bool, true, false, List, [], ◌∷◌, none, some, Text, Float64, length,
  drop, arith,
}
use tetragon_kafka_adapter.Prelude.Bags.{count, count-append, bag, bag-eq}
use tetragon_kafka_adapter.Channel.{Channel}
use tetragon_kafka_adapter.Config.{StreamConfig, PartitionKeyConfig, SchemaConfig}
use tetragon_kafka_adapter.Tetragon.{TetragonApi}
use tetragon_kafka_adapter.Router.{Router}
use tetragon_kafka_adapter.Queue.{Queue, returns, blocks, push, pop}
use tetragon_kafka_adapter.Queue.Sampler.{should_sample}
use tetragon_kafka_adapter.Grpc.Stream.{Turn, read_turn}
use tetragon_kafka_adapter.Kafka.Writer.{Writer}
use tetragon_kafka_adapter.Kafka.Pool.{Pool, start_pool}
use tetragon_kafka_adapter.Kafka.Pool.Delivered.{Reach-count}
use tetragon_kafka_adapter.Pipeline.{Codecs, pushed, process_event}
use tetragon_kafka_adapter.Consumer.Flow.{
  Flow, start_flow, if_skipped, if_refused, read_into, processed, written_out, reads, looks,
  finds_cancelled, ends_processing, ends_writing, counts_in, counts_out, reopens, cancels,
  receives_event, processes, pops, writes_event, works, FlowReach, stays, steps,
}
use tetragon_kafka_adapter.Consumer.Flow.Places.{
  held, places, of_event, Whole, count-places, Written-count,
}
use tetragon_kafka_adapter.Consumer.Flow.Pools.{write_event-Written, FlowReach-pool}

module _ (api : TetragonApi) where
  open api use {Event}

  module _ (p : Event → Bool) where
    count-none : count p [] ≡ 0
    unfolding count
    count-none = refl

    process-count :
        (stream : StreamConfig) (draw : Float64) (done pick : Bool) (q : Queue Event) (e : Event)
        (skipped refused : List Event)
        → let r = process_event api stream draw done pick q e in
          r.0 ≢ pushed blocks
          → count p r.1.ch.items
              + count p (if_skipped r.0 e skipped)
              + count p (if_refused r.0 e refused)
            ≡ count p q.ch.items + count p skipped + count p refused + count p (e ∷ [])
    unfolding process_event should_sample push
    process-count stream draw done pick q e skipped refused nb = ground (
      arith,
      count-append p q.ch.items (e ∷ []),
      count-append p skipped (e ∷ []),
      count-append p refused (e ∷ []),
    )

    processed-Whole :
        (stream : StreamConfig) (s : Flow Event) (e : Event) (draw : Float64) (pick : Bool)
        → s.processing ≡ some e
        → (process_event api stream draw s.cancelled pick s.queue e).0 ≢ pushed blocks
        → Whole p s
        → Whole p (processed api stream s e draw pick)
    unfolding processed count
    processed-Whole stream s e draw pick h nb w =
        let held_one = ap (λ o. count p (held o)) h in
        omega (
          arith,
          w,
          held_one,
          process-count stream draw s.cancelled pick s.queue e s.skipped s.refused nb,
        )

    reads-Whole : (s : Flow Event) (t : Turn Event) → Whole p s → Whole p (read_into s t)
    unfolding read_into
    reads-Whole s t w =
        let new = drop (length s.reading.delivered) (read_turn s.reading t).delivered in
        omega (arith, w, count-append p s.delivered new, count-append p s.grpc_event_ch.items new)

    receives-Whole :
        (s : Flow Event) (e : Event) (rest : List Event)
        → s.processing ≡ none
        → s.grpc_event_ch.items ≡ e ∷ rest
        → Whole p s
        → Whole p (record s {
          processing = some e;
          grpc_event_ch = record s.grpc_event_ch { items = rest };
        })
    receives-Whole s e rest h q w =
        let held_none = ap (λ o. count p (held o)) h in
        omega (arith, w, held_none, ap (count p) q, count-append p (e ∷ []) rest, count-none)

    pop-count :
        (q : Queue Event) (done pick : Bool) (e : Event) (q' : Queue Event)
        → pop q done pick ≡ (returns e, q')
        → count p q.ch.items ≡ count p (e ∷ []) + count p q'.ch.items
    unfolding pop count
    pop-count q done pick e q' h = ground (arith)

    pops-Whole :
        (s : Flow Event) (e : Event) (q : Queue Event) (pick : Bool)
        → s.writing ≡ none
        → pop s.queue s.cancelled pick ≡ (returns e, q)
        → Whole p s
        → Whole p (record s { writing = some e; queue = q })
    pops-Whole s e q pick h k w =
        let held_none = ap (λ o. count p (held o)) h in
        omega (arith, w, held_none, pop-count s.queue s.cancelled pick e q k, count-none)

    written_out-Whole :
        (codecs : Codecs Event) (keys : PartitionKeyConfig) (schema : SchemaConfig)
        (router : Router) (s : Flow Event) (e : Event) (now : ℤ) (random : Text)
        → s.writing ≡ some e
        → s.pool.writer.message_ch.closed ≡ false
        → Whole p s
        → Whole p (written_out api codecs keys schema router s e now random)
    unfolding written_out
    written_out-Whole codecs keys schema router s e now random h o w =
        let held_one = ap (λ x. count p (held x)) h in
        let fate =
          Written-count p s.pool e _ _ s.failed
            (write_event-Written api codecs keys schema router s.pool e now random o) in
        omega (arith, w, held_one, fate, count-none)

    works-Whole :
        (s : Flow Event) (pl : Pool Event)
        → pl.accepted ≡ s.pool.accepted
        → Whole p s
        → Whole p (record s { pool = pl })
    works-Whole s pl a w = omega (arith, w, ap (count (of_event p)) a)

    module _ (codecs : Codecs Event) (stream : StreamConfig) (keys : PartitionKeyConfig)
        (schema : SchemaConfig) (router : Router) (max : ℤ) where
      FlowReach-Whole :
          (s t : Flow Event)
          → Whole p s
          → FlowReach api codecs stream keys schema router max s t
          → Whole p t
      FlowReach-Whole s t w stays = w
      FlowReach-Whole s t w (steps r (reads u n g m k room done)) =
          reads-Whole u n (FlowReach-Whole s u w r)
      FlowReach-Whole s t w (steps r (looks u g m k)) = FlowReach-Whole s u w r
      FlowReach-Whole s t w (steps r (finds_cancelled u n g m k h)) = FlowReach-Whole s u w r
      FlowReach-Whole s t w (steps r (reopens u b g k)) = FlowReach-Whole s u w r
      FlowReach-Whole s t w (steps r (ends_processing u g h d k)) = FlowReach-Whole s u w r
      FlowReach-Whole s t w (steps r (ends_writing u x n g h d k)) = FlowReach-Whole s u w r
      FlowReach-Whole s t w (steps r (counts_in u n h)) = FlowReach-Whole s u w r
      FlowReach-Whole s t w (steps r (counts_out u n h)) = FlowReach-Whole s u w r
      FlowReach-Whole s t w (steps r (cancels u)) = FlowReach-Whole s u w r
      FlowReach-Whole s t w (steps r (receives_event u e rest g h d q)) =
          receives-Whole u e rest h q (FlowReach-Whole s u w r)
      FlowReach-Whole s t w (steps r (processes u e draw pick h b)) =
          processed-Whole stream u e draw pick h b (FlowReach-Whole s u w r)
      FlowReach-Whole s t w (steps r (pops u e q pick g h d k)) =
          pops-Whole u e q pick h k (FlowReach-Whole s u w r)
      FlowReach-Whole s t w (steps r (writes_event u e now random h o b)) =
          written_out-Whole codecs keys schema router u e now random h o (FlowReach-Whole s u w r)
      FlowReach-Whole s t w (steps r (works u pl x a)) =
          works-Whole u pl a (FlowReach-Whole s u w r)

module _ (api : TetragonApi) (codecs : Codecs api.Event) (stream : StreamConfig)
    (keys : PartitionKeyConfig) (schema : SchemaConfig) (router : Router) (max : ℤ) (opens : Bool)
    (ch : Channel api.Event) (q : Queue api.Event) (w : Writer api.Event) where
  open api use {Event}

  start-Whole :
      (p : Event → Bool) → ch.items ≡ [] → q.ch.items ≡ [] → Whole p (start_flow opens ch q w)
  unfolding start_flow start_pool count
  start-Whole p c k = omega (arith, ap (count p) c, ap (count p) k)

  -- No event is lost or made up: from a start with nothing in the channel of main, the queue and the
  -- writer, whatever the goroutines do and in any order, cancellation and Close of the writer
  -- included, the bag of the events that ReadEvents has delivered, over all its streams, is the bag of those that wait in
  -- the three channels, that processEvents or writeToKafka holds, that were not sampled, that Push
  -- refused, that writeToKafka could not write, and that a worker gathers or has flushed.
  pub FlowReach-places :
      (s : Flow Event)
      → ch.items ≡ []
      → q.ch.items ≡ []
      → w.message_ch.items ≡ []
      → FlowReach api codecs stream keys schema router max (start_flow opens ch q w) s
      → bag s.delivered ≡ bag (places s)
  FlowReach-places s c k m r = bag-eq s.delivered (places s) (λ p.
      count-places p s
        (FlowReach-Whole api p codecs stream keys schema router max (start_flow opens ch q w) s
          (start-Whole p c k) r)
        (Reach-count (of_event p) max true w s.pool m (
          unfold start_flow in
          FlowReach-pool api codecs stream keys schema router max (start_flow opens ch q w) s r)))
