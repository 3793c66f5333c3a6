-- ===== src/Consumer/Flow/Ordered.antt =====
-- The order in which the goroutines of cmd/consumer/main.go pass the events on.
use mathlib.Core.Path.{subst}
use mathlib.Core.List.{append_assoc}
use mathlib.Core.List.Sublist
use mathlib.Core.List.{Sublist}
use tetragon_kafka_adapter.Prelude.{
  ℤ, ◌≡◌, ◌∙◌, sym, ap, inl, inr, Bool, false, List, [], ◌∷◌, ◌++◌, none, some, Text, Float64,
  length, drop,
}
use tetragon_kafka_adapter.Channel.{Channel}
use tetragon_kafka_adapter.Config.{StreamConfig, PartitionKeyConfig, SchemaConfig}
use tetragon_kafka_adapter.Tetragon.{TetragonApi}
use tetragon_kafka_adapter.Router.{Router}
use tetragon_kafka_adapter.Queue.{Queue, returns, pop}
use tetragon_kafka_adapter.Grpc.Stream.{Turn, read_turn}
use tetragon_kafka_adapter.Kafka.Writer.{Writer}
use tetragon_kafka_adapter.Kafka.Pool.{start_pool}
use tetragon_kafka_adapter.Pipeline.{Codecs}
use tetragon_kafka_adapter.Consumer.Flow.{
  Flow, start_flow, read_into, processed, written_out, reads, looks, finds_cancelled,
  ends_processing, ends_writing, counts_in, counts_out, reopens, cancels, receives_event, processes,
  pops, writes_event, works, FlowReach, stays, steps,
}
use tetragon_kafka_adapter.Consumer.Flow.Places.{held, events_in}
use tetragon_kafka_adapter.Consumer.Flow.Pools.{write_event-Written}
use tetragon_kafka_adapter.Consumer.Flow.Lines.{
  row, line, same, row-append, row-skip, row-forget, Written-accepted, process_event-items,
  pop-items,
}

module _ (api : TetragonApi) where
  open api use {Event}

  InLine : Flow Event → Type 0
  InLine s = Sublist (line s) s.delivered

  reads-InLine : (s : Flow Event) (t : Turn Event) → InLine s → InLine (read_into s t)
  unfolding InLine read_into
  reads-InLine s t i =
      let new = drop (length s.reading.delivered) (read_turn s.reading t).delivered in
      subst (λ l. Sublist l (s.delivered ++ new))
        (row-append (events_in s.pool.accepted) (held s.writing) s.queue.ch.items
          (held s.processing) s.grpc_event_ch.items new)
        (Sublist.append i (Sublist.refl new))

  receives-InLine :
      (s : Flow Event) (e : Event) (rest : List Event)
      → s.processing ≡ none
      → s.grpc_event_ch.items ≡ e ∷ rest
      → InLine s
      → InLine (record s {
        processing = some e;
        grpc_event_ch = record s.grpc_event_ch { items = rest };
      })
  unfolding InLine
  receives-InLine s e rest h q i =
      subst (λ l. Sublist l s.delivered)
        (ap
            (λ x.
              row (events_in s.pool.accepted) (held s.writing) s.queue.ch.items (held x)
                s.grpc_event_ch.items)
            h
          ∙ ap (row (events_in s.pool.accepted) (held s.writing) s.queue.ch.items []) q)
        i

  processed-InLine :
      (stream : StreamConfig) (s : Flow Event) (e : Event) (draw : Float64) (pick : Bool)
      → s.processing ≡ some e
      → InLine s
      → InLine (processed api stream s e draw pick)
  unfolding InLine processed
  processed-InLine stream s e draw pick h i =
      let a = events_in s.pool.accepted in
      let w = held s.writing in
      let c = s.grpc_event_ch.items in
      elim (process_event-items api stream draw s.cancelled pick s.queue e) [
        | inl more ↦
            Sublist.trans
              (same (
                ap (λ q. row a w q [] c) more
                ∙ ap (λ l. a ++ (w ++ l)) (append_assoc s.queue.ch.items (e ∷ []) c)
                ∙ ap (λ x. row a w s.queue.ch.items (held x) c) (sym h)))
              i
        | inr less ↦
            Sublist.trans (same (ap (λ q. row a w q [] c) less))
              (Sublist.trans (row-skip a w s.queue.ch.items (held s.processing) c) i)
      ]

  pops-InLine :
      (s : Flow Event) (e : Event) (q : Queue Event) (pick : Bool)
      → s.writing ≡ none
      → pop s.queue s.cancelled pick ≡ (returns e, q)
      → InLine s
      → InLine (record s { writing = some e; queue = q })
  unfolding InLine
  pops-InLine s e q pick h k i =
      let a = events_in s.pool.accepted in
      let p = held s.processing in
      let c = s.grpc_event_ch.items in
      subst (λ l. Sublist l s.delivered)
        (ap (λ x. row a (held x) s.queue.ch.items p c) h
          ∙ ap (λ l. row a [] l p c) (pop-items api s.queue s.cancelled pick e q k))
        i

  written_out-InLine :
      (codecs : Codecs Event) (keys : PartitionKeyConfig) (schema : SchemaConfig) (router : Router)
      (s : Flow Event) (e : Event) (now : ℤ) (random : Text)
      → s.writing ≡ some e
      → s.pool.writer.message_ch.closed ≡ false
      → InLine s
      → InLine (written_out api codecs keys schema router s e now random)
  unfolding InLine written_out
  written_out-InLine codecs keys schema router s e now random h o i =
      let a = events_in s.pool.accepted in
      let q = s.queue.ch.items in
      let p = held s.processing in
      let c = s.grpc_event_ch.items in
      elim (Written-accepted s.pool e _ _
        (write_event-Written api codecs keys schema router s.pool e now random o)) [
          | inl more ↦
              Sublist.trans
                (same (
                  ap (λ x. row x [] q p c) more
                  ∙ append_assoc a (e ∷ []) (q ++ (p ++ c))
                  ∙ ap (λ x. row a (held x) q p c) (sym h)))
                i
          | inr less ↦
              Sublist.trans (same (ap (λ x. row x [] q p c) less))
                (Sublist.trans (row-forget a (held s.writing) q p c) i)
        ]

module _ (api : TetragonApi) (codecs : Codecs api.Event) (stream : StreamConfig)
    (keys : PartitionKeyConfig) (schema : SchemaConfig) (router : Router) (max : ℤ) where
  open api use {Event}

  FlowReach-InLine :
      (s t : Flow Event)
      → InLine api s
      → FlowReach api codecs stream keys schema router max s t
      → InLine api t
  unfolding InLine
  FlowReach-InLine s t i stays = i
  FlowReach-InLine s t i (steps r (reads u n g m k room done)) =
      reads-InLine api u n (FlowReach-InLine s u i r)
  FlowReach-InLine s t i (steps r (looks u g m k)) = FlowReach-InLine s u i r
  FlowReach-InLine s t i (steps r (finds_cancelled u n g m k h)) = FlowReach-InLine s u i r
  FlowReach-InLine s t i (steps r (reopens u b g k)) = FlowReach-InLine s u i r
  FlowReach-InLine s t i (steps r (ends_processing u g h d k)) = FlowReach-InLine s u i r
  FlowReach-InLine s t i (steps r (ends_writing u x n g h d k)) = FlowReach-InLine s u i r
  FlowReach-InLine s t i (steps r (counts_in u n h)) = FlowReach-InLine s u i r
  FlowReach-InLine s t i (steps r (counts_out u n h)) = FlowReach-InLine s u i r
  FlowReach-InLine s t i (steps r (cancels u)) = FlowReach-InLine s u i r
  FlowReach-InLine s t i (steps r (receives_event u e rest g h d q)) =
      receives-InLine api u e rest h q (FlowReach-InLine s u i r)
  FlowReach-InLine s t i (steps r (processes u e draw pick h b)) =
      processed-InLine api stream u e draw pick h (FlowReach-InLine s u i r)
  FlowReach-InLine s t i (steps r (pops u e q pick g h d k)) =
      pops-InLine api u e q pick h k (FlowReach-InLine s u i r)
  FlowReach-InLine s t i (steps r (writes_event u e now random h o b)) =
      written_out-InLine api codecs keys schema router u e now random h o (FlowReach-InLine s u i r)
  FlowReach-InLine s t i (steps r (works u pl x a)) =
      subst
        (λ l.
          Sublist
            (row (events_in l) (held u.writing) u.queue.ch.items (held u.processing)
              u.grpc_event_ch.items)
            u.delivered)
        (sym a) (FlowReach-InLine s u i r)

  -- Nothing overtakes: from a start with nothing in the channel of main and the queue, whatever the
  -- goroutines do and in any order, the events of the messages that the writer has accepted, the
  -- event that writeToKafka holds, the queue, the event that processEvents holds and the channel of
  -- main are, one after another, a sublist of the events that ReadEvents has delivered, over all its
  -- streams.
  pub FlowReach-Sublist :
      (opens : Bool) (ch : Channel Event) (q : Queue Event) (w : Writer Event) (s : Flow Event)
      → ch.items ≡ []
      → q.ch.items ≡ []
      → FlowReach api codecs stream keys schema router max (start_flow opens ch q w) s
      → Sublist
          (events_in s.pool.accepted
            ++ (held s.writing
                ++ (s.queue.ch.items ++ (held s.processing ++ s.grpc_event_ch.items))))
          s.delivered
  unfolding InLine start_flow start_pool events_in
  FlowReach-Sublist opens ch q w s c k r =
      FlowReach-InLine (start_flow opens ch q w) s (same (ap (λ l. l ++ ch.items) k ∙ c)) r
