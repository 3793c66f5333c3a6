-- ===== src/Consumer/Flow/Counted.antt =====
-- The metrics of processEvents and writeToKafka of cmd/consumer/main.go against the queue and the
-- writer that they share.
use tetragon_kafka_adapter.Prelude.{
  ℤ, suc, ◌+◌, ◌≡◌, ◌≤◌, ◌≢◌, refl, ◌∙◌, ap, Bool, false, List, [], ◌∷◌, ◌++◌, Option, none, some,
  Text, Float64, length, length-append, arith,
}
use tetragon_kafka_adapter.Channel.{Channel}
use tetragon_kafka_adapter.Config.{StreamConfig, PartitionKeyConfig, SchemaConfig}
use tetragon_kafka_adapter.Tetragon.{TetragonApi}
use tetragon_kafka_adapter.Router.{Router}
use tetragon_kafka_adapter.Queue.{Queue, returns, blocks, pop}
use tetragon_kafka_adapter.Kafka.Writer.{Writer, written, queue_full, panics}
use tetragon_kafka_adapter.Kafka.Pool.{Pool, start_pool}
use tetragon_kafka_adapter.Pipeline.{
  Codecs, pushed, Handled, wrote, normalize_failed, serialize_failed, no_writer, process_event,
}
use tetragon_kafka_adapter.Pipeline.Accounts.{write_event-counted}
use tetragon_kafka_adapter.Consumer.Flow.{
  Flow, start_flow, with_writer, if_failed, processed, written_out, read_into, reads, looks,
  finds_cancelled, ends_processing, ends_writing, counts_in, counts_out, reopens, cancels,
  receives_event, processes, pops, writes_event, works, FlowReach, stays, steps,
}
use tetragon_kafka_adapter.Consumer.Flow.Arrivals.{process_event-arrivals, process_event-prompt}
use tetragon_kafka_adapter.Consumer.Flow.Places.{held}
use tetragon_kafka_adapter.Consumer.Flow.Pools.{
  drop_whole, Written, passes, stops, write_event-Written,
}

module _ {E : Type 0} where
  -- What the counters say, and have yet to say, against the queue, the writer and the events that
  -- went neither way.
  abbrev IsCounted : Flow E → Type 0
  IsCounted s =
      (s.arrivals + s.arrivals_due
        ≡ length s.refused
          + length s.queue.ch.items
          + length (held s.writing)
          + (s.outcomes + s.outcomes_due))
      × (s.outcomes + s.outcomes_due ≡ length s.failed + length s.pool.accepted)

  -- No loop has more than one event yet to count, and none while it holds the next one.
  abbrev IsPrompt : Flow E → Type 0
  IsPrompt s =
      (length (held s.processing) + s.arrivals_due ≤ 1)
      × (length (held s.writing) + s.outcomes_due ≤ 1)

  start-IsPrompt :
      (opens : Bool) (ch : Channel E) (q : Queue E) (w : Writer E)
      → IsPrompt (start_flow opens ch q w)
  unfolding start_flow
  start-IsPrompt opens ch q w = (omega arith, omega arith)

  fails-length :
      (h : Handled) (e : E) (failed : List E)
      → h ≢ wrote written
      → length (if_failed h e failed) ≡ suc (length failed)
  fails-length (wrote written) e failed n = elim (n refl) [ ]
  fails-length (wrote queue_full) e failed n = omega (arith, length-append failed (e ∷ []))
  fails-length (wrote panics) e failed n = omega (arith, length-append failed (e ∷ []))
  fails-length normalize_failed e failed n = omega (arith, length-append failed (e ∷ []))
  fails-length serialize_failed e failed n = omega (arith, length-append failed (e ∷ []))
  fails-length no_writer e failed n = omega (arith, length-append failed (e ∷ []))

  Written-length :
      (p : Pool E) (e : E) (h : Handled) (w : Option (Writer E)) (failed : List E)
      → Written p e h w
      → (h ≢ wrote panics)
        × (length (if_failed h e failed) + length (with_writer p w).accepted
            ≡ suc (length failed + length p.accepted))
  Written-length p e h w failed (passes m same ok put_on whole) =
      let grown =
        ap (λ o. length (with_writer p o).accepted) put_on
        ∙ ap (λ l. length (p.accepted ++ l)) (drop_whole p.writer.message_ch.items (m ∷ [])) in
      (
        (λ n. cc),
        omega (
          arith,
          ap (λ x. length (if_failed x e failed)) ok,
          grown,
          length-append p.accepted (m ∷ []),
        ),
      )
  Written-length p e h w failed (stops n no_panic same) =
      (no_panic, omega (arith, ap (λ x. length x.accepted) same, fails-length h e failed n))

  start-IsCounted :
      (opens : Bool) (ch : Channel E) (q : Queue E) (w : Writer E)
      → q.ch.items ≡ []
      → IsCounted (start_flow opens ch q w)
  unfolding start_flow start_pool
  start-IsCounted opens ch q w k = (omega (arith, ap length k), omega arith)

module _ (api : TetragonApi) where
  open api use {Event}

  processed-IsCounted :
      (stream : StreamConfig) (s : Flow Event) (e : Event) (draw : Float64) (pick : Bool)
      → s.processing ≡ some e
      → (process_event api stream draw s.cancelled pick s.queue e).0 ≢ pushed blocks
      → IsPrompt s
      → IsCounted s
      → IsCounted (processed api stream s e draw pick)
        × IsPrompt (processed api stream s e draw pick)
  unfolding processed
  processed-IsCounted stream s e draw pick h nb (p, w) (a, o) =
      let arrivals =
        process_event-arrivals api stream draw s.cancelled pick s.queue e s.refused nb in
      let held_one = ap (λ x. length (held x)) h in
      let one = process_event-prompt api stream draw s.cancelled pick s.queue e in
      ((omega (arith, a, arrivals, held_one, p), o), (omega (arith, one), w))

  pop-length :
      (q : Queue Event) (done pick : Bool) (e : Event) (q' : Queue Event)
      → pop q done pick ≡ (returns e, q')
      → length q.ch.items ≡ suc (length q'.ch.items)
  unfolding pop
  pop-length q done pick e q' h = ground arith

  pops-IsCounted :
      (s : Flow Event) (e : Event) (q : Queue Event) (pick : Bool)
      → s.writing ≡ none
      → s.outcomes_due ≡ 0
      → pop s.queue s.cancelled pick ≡ (returns e, q)
      → IsPrompt s
      → IsCounted s
      → IsCounted (record s { writing = some e; queue = q })
        × IsPrompt (record s { writing = some e; queue = q })
  pops-IsCounted s e q pick h d k (p, w) (a, o) =
      let held_none = ap (λ x. length (held x)) h in
      (
        (omega (arith, a, held_none, pop-length s.queue s.cancelled pick e q k), o),
        (p, omega (arith, d)),
      )

  written_out-IsCounted :
      (codecs : Codecs Event) (keys : PartitionKeyConfig) (schema : SchemaConfig) (router : Router)
      (s : Flow Event) (e : Event) (now : ℤ) (random : Text)
      → s.writing ≡ some e
      → s.pool.writer.message_ch.closed ≡ false
      → IsPrompt s
      → IsCounted s
      → IsCounted (written_out api codecs keys schema router s e now random)
        × IsPrompt (written_out api codecs keys schema router s e now random)
  unfolding written_out
  written_out-IsCounted codecs keys schema router s e now random h o (p, w) (a, b) =
      let fate =
        Written-length s.pool e _ _ s.failed
          (write_event-Written api codecs keys schema router s.pool e now random o) in
      let one =
        write_event-counted api codecs keys schema router now random (some s.pool.writer) e
          fate.0 in
      let held_one = ap (λ x. length (held x)) h in
      (
        (omega (arith, a, one, held_one, w), omega (arith, b, fate.1, one, held_one, w)),
        (p, omega (arith, one)),
      )

module _ (api : TetragonApi) (codecs : Codecs api.Event) (stream : StreamConfig)
    (keys : PartitionKeyConfig) (schema : SchemaConfig) (router : Router) (max : ℤ) where
  open api use {Event}

  Both : Flow Event → Type 0
  Both s = IsCounted s × IsPrompt s

  FlowReach-Both :
      (s t : Flow Event) → Both s → FlowReach api codecs stream keys schema router max s t → Both t
  unfolding Both read_into
  FlowReach-Both s t c stays = c
  FlowReach-Both s t c (steps r (reads u n g m k room done)) = FlowReach-Both s u c r
  FlowReach-Both s t c (steps r (looks u g m k)) = FlowReach-Both s u c r
  FlowReach-Both s t c (steps r (finds_cancelled u n g m k h)) = FlowReach-Both s u c r
  FlowReach-Both s t c (steps r (reopens u b g k)) = FlowReach-Both s u c r
  FlowReach-Both s t c (steps r (ends_processing u g h d k)) = FlowReach-Both s u c r
  FlowReach-Both s t c (steps r (ends_writing u x n g h d k)) = FlowReach-Both s u c r
  FlowReach-Both s t c (steps r (cancels u)) = FlowReach-Both s u c r
  FlowReach-Both s t c (steps r (receives_event u e rest g h d q)) =
      let (counted, (p, w)) = FlowReach-Both s u c r in (counted, (omega (arith, d), w))
  FlowReach-Both s t c (steps r (processes u e draw pick h b)) =
      let (counted, prompt) = FlowReach-Both s u c r in
      processed-IsCounted api stream u e draw pick h b prompt counted
  FlowReach-Both s t c (steps r (counts_in u n h)) =
      let ((a, o), (p, w)) = FlowReach-Both s u c r in
      ((omega (arith, a, h), o), (omega (arith, p, h), w))
  FlowReach-Both s t c (steps r (pops u e q pick g h d k)) =
      let (counted, prompt) = FlowReach-Both s u c r in
      pops-IsCounted api u e q pick h d k prompt counted
  FlowReach-Both s t c (steps r (writes_event u e now random h o b)) =
      let (counted, prompt) = FlowReach-Both s u c r in
      written_out-IsCounted api codecs keys schema router u e now random h o prompt counted
  FlowReach-Both s t c (steps r (counts_out u n h)) =
      let ((a, o), (p, w)) = FlowReach-Both s u c r in
      ((omega (arith, a, h), omega (arith, o, h)), (p, omega (arith, w, h)))
  FlowReach-Both s t c (steps r (works u p x a)) =
      let ((k, o), prompt) = FlowReach-Both s u c r in ((k, omega (arith, o, ap length a)), prompt)

  -- From a start with an empty queue, whatever the goroutines do and in any order, the counters of
  -- processEvents and writeToKafka agree with what became of the events, up to one that each loop
  -- has handled and not yet counted: events_in_total, with the one due, counts those that Push
  -- refused, those in the queue, the one that writeToKafka holds, and all whose outcome is counted
  -- or due; and the outcomes, by events_out_total and normalize_errors_total together and with the
  -- one due, are the events that writeToKafka could not write and the messages that the writer
  -- accepted.
  pub FlowReach-counts :
      (opens : Bool) (ch : Channel Event) (q : Queue Event) (w : Writer Event) (s : Flow Event)
      → q.ch.items ≡ []
      → FlowReach api codecs stream keys schema router max (start_flow opens ch q w) s
      → (s.arrivals + s.arrivals_due
          ≡ length s.refused
            + length s.queue.ch.items
            + length (held s.writing)
            + (s.outcomes + s.outcomes_due))
        × (s.outcomes + s.outcomes_due ≡ length s.failed + length s.pool.accepted)
        × (s.arrivals_due ≤ 1)
        × (s.outcomes_due ≤ 1)
  unfolding Both
  FlowReach-counts opens ch q w s k r =
      let start : Both (start_flow opens ch q w) =
        (start-IsCounted opens ch q w k, start-IsPrompt opens ch q w) in
      let ((a, o), (p, t)) = FlowReach-Both (start_flow opens ch q w) s start r in
      (a, o, omega (arith, p), omega (arith, t))
