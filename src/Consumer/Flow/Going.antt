-- ===== src/Consumer/Flow/Going.antt =====
-- Single calls of the goroutines of cmd/consumer/main.go that can go on.
use tetragon_kafka_adapter.Prelude.{
  ℕ, zero, suc, ◌<◌, Text, replicate, ℤ, pos, ◌≤◌, ◌≡◌, ◌≢◌, refl, ◌∙◌, sym, ap, true, false, List,
  [], ◌∷◌, Option, none, some, Float64, one_f, length, arith,
}
use mathlib.Core.Path.{subst}
use tetragon_kafka_adapter.Config.{StreamConfig, PartitionKeyConfig, SchemaConfig}
use tetragon_kafka_adapter.Tetragon.{TetragonApi}
use tetragon_kafka_adapter.Router.{Router}
use tetragon_kafka_adapter.Queue.{Queue, returns, blocks, push, pop}
use tetragon_kafka_adapter.Queue.Sampler.{should_sample}
use tetragon_kafka_adapter.Kafka.Writer.{Writer}
use tetragon_kafka_adapter.Kafka.Pool.{Pool}
use tetragon_kafka_adapter.Pipeline.{Codecs, Handled, pushed, process_event}
use tetragon_kafka_adapter.Prelude.Every.{replicate-All}
use tetragon_kafka_adapter.Consumer.Flow.{
  AreRandom, Flow, with_writer, processed, written_out, processes, pops, writes_event, counts_in,
  counts_out, FlowReach, stays, steps,
}
use tetragon_kafka_adapter.Consumer.Flow.Pools.{Written, passes, stops, write_event-Written}

abbrev pub zeros : Text
zeros = replicate 16 0

pub zeros-AreRandom : AreRandom zeros
zeros-AreRandom = (refl, replicate-All (λ c. c < 256) 16 0 (omega arith))

module _ {E : Type 0} where
  pub Written-open :
      (p : Pool E) (e : E) (h : Handled) (w : Option (Writer E))
      → Written p e h w
      → (with_writer p w).writer.message_ch.closed ≡ p.writer.message_ch.closed
  Written-open p e h w (passes m put ok on whole) =
      ap (λ o. (with_writer p o).writer.message_ch.closed) on
  Written-open p e h w (stops n no_panic kept) = ap (λ x. x.writer.message_ch.closed) kept

  pop_first :
      (q : Queue E) (e : E) (rest : List E)
      → q.ch.items ≡ e ∷ rest
      → pop q false true ≡ (returns e, record q { ch = record q.ch { items = rest } })
  unfolding pop
  pop_first q e rest h = rw h refl

  -- The context lives, the writer is open, the queue can hold an event, and neither loop has returned.
  pub record IsGoing (s : Flow E) : Type 0 where
    pub lives : s.cancelled ≡ false
    pub takes_more : s.pool.writer.message_ch.closed ≡ false
    pub holds : 1 ≤ s.queue.ch.capacity
    pub processes : s.processes_on ≡ true
    pub writes : s.writes_on ≡ true

  -- What a part of a run leaves alone.
  pub record IsSame (s t : Flow E) : Type 0 where
    pub channel : t.grpc_event_ch.items ≡ s.grpc_event_ch.items
    pub in_hand : t.processing ≡ s.processing
    pub in_due : t.arrivals_due ≡ s.arrivals_due
    pub events : t.delivered ≡ s.delivered

  pub IsSame-trans : {s t u : Flow E} → IsSame s t → IsSame t u → IsSame s u
  IsSame-trans i j = record {
    channel = j.channel ∙ i.channel;
    in_hand = j.in_hand ∙ i.in_hand;
    in_due = j.in_due ∙ i.in_due;
    events = j.events ∙ i.events;
  }

module _ (api : TetragonApi) where
  open api use {Event}

  -- An empty queue that can hold an event takes one, in either mode.
  process_empty :
      (stream : StreamConfig) (draw : Float64) (q : Queue Event) (e : Event)
      → q.ch.items ≡ []
      → 1 ≤ q.ch.capacity
      → let r = process_event api stream draw false true q e in
        (r.0 ≢ pushed blocks) × (r.1.ch.capacity ≡ q.ch.capacity)
  unfolding process_event should_sample push
  process_empty stream draw q e h c = ground (arith, ap length h)

  module _ (codecs : Codecs Event) (stream : StreamConfig) (keys : PartitionKeyConfig)
      (schema : SchemaConfig) (router : Router) (max : ℤ) where
    abbrev pub Run : Flow Event → Flow Event → Type 0
    Run = FlowReach api codecs stream keys schema router max

    pub then_on : {s t u : Flow Event} → Run s t → Run t u → Run s u
    then_on r stays = r
    then_on r (steps q x) = steps (then_on r q) x

    -- writeToKafka counts the outcomes that are due, and processEvents the arrivals.
    settle_out :
        (n : ℕ) (s : Flow Event)
        → s.outcomes_due ≡ n
        → (m : ℕ) × Run s (record s { outcomes = m; outcomes_due = 0 })
    settle_out zero s h = (s.outcomes, subst (λ d. Run s (record s { outcomes_due = d })) h stays)
    settle_out (suc n) s h =
        let counted = record s { outcomes = suc s.outcomes; outcomes_due = n } in
        let (m, r) = settle_out n counted refl in (m, then_on (steps stays (counts_out s n h)) r)

    pub settle_in :
        (n : ℕ) (s : Flow Event)
        → s.arrivals_due ≡ n
        → (m : ℕ) × Run s (record s { arrivals = m; arrivals_due = 0 })
    settle_in zero s h = (s.arrivals, subst (λ d. Run s (record s { arrivals_due = d })) h stays)
    settle_in (suc n) s h =
        let counted = record s { arrivals = suc s.arrivals; arrivals_due = n } in
        let (m, r) = settle_in n counted refl in (m, then_on (steps stays (counts_in s n h)) r)

    pub count_out :
        (s : Flow Event)
        → IsGoing s
        → (t : Flow Event) × Run s t
          × IsGoing t
          × IsSame s t
          × (t.writing ≡ s.writing)
          × (t.outcomes_due ≡ 0)
          × (t.queue.ch.items ≡ s.queue.ch.items)
    count_out s g =
        let (m, r) = settle_out s.outcomes_due s refl in
        (
          record s { outcomes = m; outcomes_due = 0 },
          r,
          record {
            lives = g.lives;
            takes_more = g.takes_more;
            holds = g.holds;
            processes = g.processes;
            writes = g.writes;
          },
          record { channel = refl; in_hand = refl; in_due = refl; events = refl },
          refl,
          refl,
          refl,
        )

    pub write_held :
        (s : Flow Event) (e : Event)
        → IsGoing s
        → s.writing ≡ some e
        → (t : Flow Event) × Run s t
          × IsGoing t
          × IsSame s t
          × (t.writing ≡ none)
          × (t.outcomes_due ≡ 0)
          × (t.queue.ch.items ≡ s.queue.ch.items)
    unfolding written_out
    write_held s e g h =
        let o =
          Written-open s.pool e _ _ (
            write_event-Written api codecs keys schema router s.pool e (pos 0) zeros
              g.takes_more) in
        let wrote : Flow Event = written_out api codecs keys schema router s e (pos 0) zeros in
        let going : IsGoing wrote = record {
          lives = g.lives;
          takes_more = o ∙ g.takes_more;
          holds = g.holds;
          processes = g.processes;
          writes = g.writes;
        } in
        let (t, r, g', i, h', d, q) = count_out wrote going in
        (
          t,
          then_on (steps stays (writes_event s e (pos 0) zeros h g.takes_more zeros-AreRandom)) r,
          g',
          record { channel = i.channel; in_hand = i.in_hand; in_due = i.in_due; events = i.events },
          h',
          d,
          q,
        )

    pop_held :
        (s : Flow Event) (e : Event) (rest : List Event)
        → IsGoing s
        → s.writing ≡ none
        → s.outcomes_due ≡ 0
        → s.queue.ch.items ≡ e ∷ rest
        → (t : Flow Event) × Run s t
          × IsGoing t
          × IsSame s t
          × (t.writing ≡ some e)
          × (t.queue.ch.items ≡ rest)
    pop_held s e rest g h d q =
        let left = record s.queue { ch = record s.queue.ch { items = rest } } in
        (
          record s { writing = some e; queue = left },
          steps stays (pops s e left true g.writes h d (rw g.lives (pop_first s.queue e rest q))),
          record {
            lives = g.lives;
            takes_more = g.takes_more;
            holds = g.holds;
            processes = g.processes;
            writes = g.writes;
          },
          record { channel = refl; in_hand = refl; in_due = refl; events = refl },
          refl,
          refl,
        )

    -- writeToKafka writes what it holds, then takes and writes what waits in the queue.
    pub empty_queue :
        (items : List Event) (s : Flow Event)
        → IsGoing s
        → s.writing ≡ none
        → s.outcomes_due ≡ 0
        → s.queue.ch.items ≡ items
        → (t : Flow Event) × Run s t
          × IsGoing t
          × IsSame s t
          × (t.writing ≡ none)
          × (t.outcomes_due ≡ 0)
          × (t.queue.ch.items ≡ [])
    empty_queue [] s g h d q = (
      s,
      stays,
      g,
      record { channel = refl; in_hand = refl; in_due = refl; events = refl },
      h,
      d,
      q,
    )
    empty_queue (e ∷ items) s g h d q =
        let (t, r, g', i, h', q') = pop_held s e items g h d q in
        let (u, r', g'', i', h'', d'', q'') = write_held t e g' h' in
        let (v, r''', g''', i'', h''', d''', q''') = empty_queue items u g'' h'' d'' (q'' ∙ q') in
        (
          v,
          then_on r (then_on r' r'''),
          g''',
          IsSame-trans i (IsSame-trans i' i''),
          h''',
          d''',
          q''',
        )

    pub process_held :
        (s : Flow Event) (e : Event)
        → IsGoing s
        → s.processing ≡ some e
        → s.queue.ch.items ≡ []
        → (t : Flow Event) × Run s t
          × IsGoing t
          × (t.processing ≡ none)
          × (t.arrivals_due ≡ 0)
          × (t.writing ≡ s.writing)
          × (t.grpc_event_ch.items ≡ s.grpc_event_ch.items)
          × (t.delivered ≡ s.delivered)
    unfolding processed
    process_held s e g h q =
        let (goes, same) = process_empty stream one_f s.queue e q g.holds in
        let lives = sym g.lives in
        let pushed_on : Flow Event = processed api stream s e one_f true in
        let (m, r) = settle_in pushed_on.arrivals_due pushed_on refl in
        (
          record pushed_on { arrivals = m; arrivals_due = 0 },
          then_on (steps stays (processes s e one_f true h (rw g.lives goes))) r,
          record {
            lives = g.lives;
            takes_more = g.takes_more;
            holds = rw (g.lives, same) g.holds;
            processes = g.processes;
            writes = g.writes;
          },
          refl,
          refl,
          refl,
          refl,
          refl,
        )
