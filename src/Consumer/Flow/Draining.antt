-- ===== src/Consumer/Flow/Draining.antt =====
-- The goroutines of cmd/consumer/main.go do not block one another.
use tetragon_kafka_adapter.Prelude.{
  ℤ, ◌≤◌, ◌≡◌, refl, ◌∙◌, inl, inr, true, false, List, [], ◌∷◌, none, some, Option-cases,
}
use tetragon_kafka_adapter.Config.{StreamConfig, PartitionKeyConfig, SchemaConfig}
use tetragon_kafka_adapter.Tetragon.{TetragonApi}
use tetragon_kafka_adapter.Router.{Router}
use tetragon_kafka_adapter.Pipeline.{Codecs}
use tetragon_kafka_adapter.Consumer.Flow.{Flow, receives_event, FlowReach, stays, steps}
use tetragon_kafka_adapter.Consumer.Flow.Going.{
  IsGoing, IsSame, IsSame-trans, Run, then_on, settle_in, count_out, write_held, empty_queue,
  process_held,
}

module _ (api : TetragonApi) (codecs : Codecs api.Event) (stream : StreamConfig)
    (keys : PartitionKeyConfig) (schema : SchemaConfig) (router : Router) (max : ℤ) where
  open api use {Event}

  -- Nothing is on its way but what waits in the channel of main.
  record IsQuiet (s : Flow Event) : Type 0 where
    going : IsGoing s
    queued : s.queue.ch.items ≡ []
    processed_all : s.processing ≡ none
    written_all : s.writing ≡ none
    arrivals_counted : s.arrivals_due ≡ 0
    outcomes_counted : s.outcomes_due ≡ 0

  -- The queue is emptied once writeToKafka has counted and holds nothing.
  empty_settled :
      (s : Flow Event)
      → IsGoing s
      → s.writing ≡ none
      → (t : Flow Event) × Run api codecs stream keys schema router max s t
        × IsGoing t
        × IsSame s t
        × (t.writing ≡ none)
        × (t.outcomes_due ≡ 0)
        × (t.queue.ch.items ≡ [])
  empty_settled s g h =
      let (t, r, g', i, h', d, q) = count_out api codecs stream keys schema router max s g in
      let (u, r', g'', i', h'', d', q') =
        empty_queue api codecs stream keys schema router max t.queue.ch.items t g' (h' ∙ h) d
          refl in
      (
        u,
        then_on api codecs stream keys schema router max r r',
        g'',
        IsSame-trans i i',
        h'',
        d',
        q',
      )

  finish_written :
      (s : Flow Event)
      → IsGoing s
      → (t : Flow Event) × Run api codecs stream keys schema router max s t
        × IsGoing t
        × IsSame s t
        × (t.writing ≡ none)
        × (t.outcomes_due ≡ 0)
        × (t.queue.ch.items ≡ [])
  finish_written s g = elim (Option-cases s.writing) [
    | inl nothing ↦ empty_settled s g nothing
    | inr (e, h) ↦
        let (t, r, g', i, h', d, q) = write_held api codecs stream keys schema router max s e g h in
        let (u, r', g'', i', h'', d', q') = empty_settled t g' h' in
        (
          u,
          then_on api codecs stream keys schema router max r r',
          g'',
          IsSame-trans i i',
          h'',
          d',
          q',
        )
  ]

  finish_processed :
      (s : Flow Event) (e : Event)
      → IsGoing s
      → s.processing ≡ some e
      → s.queue.ch.items ≡ []
      → (t : Flow Event) × Run api codecs stream keys schema router max s t
        × IsQuiet t
        × (t.grpc_event_ch.items ≡ s.grpc_event_ch.items)
        × (t.delivered ≡ s.delivered)
  finish_processed s e g h q =
      let (t, r, g', p, k, w, c, d) =
        process_held api codecs stream keys schema router max s e g h q in
      let (u, r', g'', i, w', k', q') = finish_written t g' in
      (
        u,
        then_on api codecs stream keys schema router max r r',
        record {
          going = g'';
          queued = q';
          processed_all = i.in_hand ∙ p;
          written_all = w';
          arrivals_counted = i.in_due ∙ k;
          outcomes_counted = k';
        },
        i.channel ∙ c,
        i.events ∙ d,
      )

  empty_channel :
      (items : List Event) (s : Flow Event)
      → IsQuiet s
      → s.grpc_event_ch.items ≡ items
      → (t : Flow Event) × Run api codecs stream keys schema router max s t
        × IsQuiet t
        × (t.grpc_event_ch.items ≡ [])
        × (t.delivered ≡ s.delivered)
  empty_channel [] s k c = (s, stays, k, c, refl)
  empty_channel (e ∷ items) s k c =
      let received = record s {
        processing = some e;
        grpc_event_ch = record s.grpc_event_ch { items = items };
      } in
      let g : IsGoing received = record {
        lives = k.going.lives;
        takes_more = k.going.takes_more;
        holds = k.going.holds;
        processes = k.going.processes;
        writes = k.going.writes;
      } in
      let (t, r, k', c', d) = finish_processed received e g refl k.queued in
      let (u, r', k'', c'', d') = empty_channel items t k' c' in
      (
        u,
        then_on api codecs stream keys schema router max
            (steps stays
              (receives_event s e items k.going.processes k.processed_all k.arrivals_counted c))
            (then_on api codecs stream keys schema router max r r'),
        k'',
        c'',
        d' ∙ d,
      )

  run-IsQuiet :
      (s : Flow Event)
      → IsGoing s
      → (t : Flow Event) × Run api codecs stream keys schema router max s t
        × IsQuiet t
        × (t.delivered ≡ s.delivered)
  run-IsQuiet s g =
      let (t, r, g', i, w, k, q) = finish_written s g in
      elim (Option-cases t.processing) [
        | inl nothing ↦
            let (m, r') =
              settle_in api codecs stream keys schema router max t.arrivals_due t refl in
            (
              record t { arrivals = m; arrivals_due = 0 },
              then_on api codecs stream keys schema router max r r',
              record {
                going = record {
                  lives = g'.lives;
                  takes_more = g'.takes_more;
                  holds = g'.holds;
                  processes = g'.processes;
                  writes = g'.writes;
                };
                queued = q;
                processed_all = nothing;
                written_all = w;
                arrivals_counted = refl;
                outcomes_counted = k;
              },
              i.events,
            )
        | inr (e, h) ↦
            let (u, r', l, c, d) = finish_processed t e g' h q in
            (u, then_on api codecs stream keys schema router max r r', l, d ∙ i.events)
      ]

  -- In no state do the goroutines block one another: while the context is not cancelled, the writer
  -- is open, the queue is made for at least one event, in drop mode or in block mode, and neither
  -- processEvents nor writeToKafka has returned, they can go on, with nothing more delivered by
  -- ReadEvents, until the channel of main and the queue are empty and neither holds an event.
  pub FlowReach-empties :
      (s : Flow Event)
      → s.cancelled ≡ false
      → s.pool.writer.message_ch.closed ≡ false
      → 1 ≤ s.queue.ch.capacity
      → s.processes_on ≡ true
      → s.writes_on ≡ true
      → (t : Flow Event) × FlowReach api codecs stream keys schema router max s t
        × (t.delivered ≡ s.delivered)
        × (t.grpc_event_ch.items ≡ [])
        × (t.processing ≡ none)
        × (t.queue.ch.items ≡ [])
        × (t.writing ≡ none)
  FlowReach-empties s l o h p w =
      let (t, r, k, d) =
        run-IsQuiet s
          (record { lives = l; takes_more = o; holds = h; processes = p; writes = w }) in
      let (u, r', k', c, d') = empty_channel t.grpc_event_ch.items t k refl in
      (
        u,
        then_on api codecs stream keys schema router max r r',
        d' ∙ d,
        c,
        k'.processed_all,
        k'.queued,
        k'.written_all,
      )
