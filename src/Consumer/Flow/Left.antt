-- ===== src/Consumer/Flow/Left.antt =====
-- What is left to do for the goroutines of cmd/consumer/main.go, as a number, and how each step of
-- a goroutine lowers it.
use tetragon_kafka_adapter.Prelude.{
  ℕ, ◌≢◌, ℤ, suc, ◌+◌, ◌*◌, ◌≤◌, ◌≡◌, refl, ap, inl, inr, Option-cases, Bool, true, false, List, [],
  ◌∷◌, Option, none, some, Text, Float64, length, length-append, drop, if◌then◌else◌, arith,
}
use tetragon_kafka_adapter.Config.{StreamConfig, PartitionKeyConfig, SchemaConfig}
use tetragon_kafka_adapter.Tetragon.{TetragonApi}
use tetragon_kafka_adapter.Router.{Router}
use tetragon_kafka_adapter.Queue.{Queue, returns, push, pop}
use tetragon_kafka_adapter.Queue.Sampler.{should_sample}
use tetragon_kafka_adapter.Grpc.Stream.{Turn, Reading, is_running, read_turn}
use tetragon_kafka_adapter.Kafka.Writer.{Writer, panics}
use tetragon_kafka_adapter.Kafka.Pool.{Pool}
use tetragon_kafka_adapter.Kafka.Pool.Progress.{unfinished, running_count}
use tetragon_kafka_adapter.Pipeline.{Codecs, Handled, wrote, process_event}
use tetragon_kafka_adapter.Pipeline.Accounts.{write_event-counted}
use tetragon_kafka_adapter.Consumer.Flow.Arrivals.{process_event-prompt}
use tetragon_kafka_adapter.Consumer.Flow.{Flow, with_writer, read_into, processed, written_out}
use tetragon_kafka_adapter.Consumer.Flow.Places.{held}
use tetragon_kafka_adapter.Consumer.Flow.Pools.{
  drop_all, drop_whole, Written, passes, stops, write_event-Written,
}

abbrev one_if : Bool → ℕ
one_if b = if b then 1 else 0

-- For ReadEvents: what a turn in Recv can still set off, or the look that ends it.
abbrev reader_left : Bool → Bool → ℕ
reader_left running receiving = if running then (if receiving then 9 else 1) else 0

module _ {E : Type 0} where
  -- An event has a weight for each move to come: seven in the channel of main, six in the hand of
  -- processEvents, four in the queue, three in the hand of writeToKafka, one in the writer.
  pub left : Flow E → ℕ
  left s =
      reader_left (is_running s.reading) s.receiving
      + 7 * length s.grpc_event_ch.items
      + 6 * length (held s.processing)
      + 4 * length s.queue.ch.items
      + 3 * length (held s.writing)
      + s.arrivals_due
      + s.outcomes_due
      + unfinished s.pool
      + one_if s.processes_on
      + one_if s.writes_on

  read_turn-delivers :
      (r : Reading E) (t : Turn E)
      → length (drop (length r.delivered) (read_turn r t).delivered) ≤ 1
  unfolding read_turn
  read_turn-delivers r t = elim (Option-cases t.recv) [
    | inl failed ↦ ground (arith, ap length (drop_all r.delivered))
    | inr (e, h) ↦
        ground
          (arith, ap length (drop_all r.delivered), ap length (drop_whole r.delivered (e ∷ [])))
  ]

  read_turn_ends :
      (r : Reading E) (t : Turn E) → t.cancelled ≡ true → is_running (read_turn r t) ≡ false
  unfolding read_turn
  read_turn_ends r t h = ground arith

  Written-ne-panics :
      (p : Pool E) (e : E) (h : Handled) (w : Option (Writer E))
      → Written p e h w
      → h ≢ wrote panics
  Written-ne-panics p e h w (passes m put ok on whole) = λ n. cc
  Written-ne-panics p e h w (stops no_write no_panic kept) = no_panic

  Written-unfinished :
      (p : Pool E) (e : E) (h : Handled) (w : Option (Writer E))
      → Written p e h w
      → unfinished (with_writer p w) ≤ suc (unfinished p)
  unfolding unfinished
  Written-unfinished p e h w (passes m put ok on whole) = omega (
    arith,
    ap
        (λ o.
          length (with_writer p o).writer.message_ch.items
          + running_count (with_writer p o).workers)
        on,
    length-append p.writer.message_ch.items (m ∷ []),
  )
  Written-unfinished p e h w (stops n no_panic kept) =
      omega (arith, ap (λ x. length x.writer.message_ch.items + running_count x.workers) kept)

module _ (api : TetragonApi) where
  open api use {Event}

  process_event-moves :
      (stream : StreamConfig) (draw : Float64) (done pick : Bool) (q : Queue Event) (e : Event)
      → length (process_event api stream draw done pick q e).1.ch.items ≤ suc (length q.ch.items)
  unfolding process_event should_sample push
  process_event-moves stream draw done pick q e = ground (arith, length-append q.ch.items (e ∷ []))

  pub processes-left :
      (stream : StreamConfig) (s : Flow Event) (e : Event) (draw : Float64) (pick : Bool)
      → s.processing ≡ some e
      → suc (left (processed api stream s e draw pick)) ≤ left s
  unfolding processed left
  processes-left stream s e draw pick h =
      let held_one = ap (λ o. length (held o)) h in
      omega (
        arith,
        held_one,
        process_event-moves stream draw s.cancelled pick s.queue e,
        process_event-prompt api stream draw s.cancelled pick s.queue e,
      )

  pub counts_in-left :
      (s : Flow Event) (n : ℕ)
      → s.arrivals_due ≡ suc n
      → suc (left (record s { arrivals = suc s.arrivals; arrivals_due = n })) ≤ left s
  unfolding left
  counts_in-left s n h = omega (arith, h)

  pub counts_out-left :
      (s : Flow Event) (n : ℕ)
      → s.outcomes_due ≡ suc n
      → suc (left (record s { outcomes = suc s.outcomes; outcomes_due = n })) ≤ left s
  unfolding left
  counts_out-left s n h = omega (arith, h)

  pop-shorter :
      (q : Queue Event) (done pick : Bool) (e : Event) (q' : Queue Event)
      → pop q done pick ≡ (returns e, q')
      → length q.ch.items ≡ suc (length q'.ch.items)
  unfolding pop
  pop-shorter q done pick e q' h = ground arith

  pub reads-left :
      (s : Flow Event) (t : Turn Event)
      → is_running s.reading ≡ true
      → s.receiving ≡ true
      → suc (left (read_into s t)) ≤ left s
  unfolding read_into left
  reads-left s t g m = ground (
    arith,
    read_turn-delivers s.reading t,
    length-append s.grpc_event_ch.items
        (drop (length s.reading.delivered) (read_turn s.reading t).delivered),
  )

  pub gives_up-left :
      (s : Flow Event) (t : Turn Event)
      → is_running s.reading ≡ true
      → t.cancelled ≡ true
      → suc (left (record s { reading = read_turn s.reading t })) ≤ left s
  unfolding left
  gives_up-left s t g h = ground (arith, read_turn_ends s.reading t h)

  pub cancels-left : (s : Flow Event) → left (record s { cancelled = true }) ≡ left s
  unfolding left
  cancels-left s = refl

  pub receives-left :
      (s : Flow Event) (e : Event) (rest : List Event)
      → s.processing ≡ none
      → s.grpc_event_ch.items ≡ e ∷ rest
      → suc (
          left (record s {
            processing = some e;
            grpc_event_ch = record s.grpc_event_ch { items = rest };
          }))
        ≤ left s
  unfolding left
  receives-left s e rest h q = omega (arith, ap (λ o. length (held o)) h, ap length q)

  pub ends_processing-left :
      (s : Flow Event)
      → s.processes_on ≡ true
      → suc (left (record s { processes_on = false })) ≤ left s
  unfolding left
  ends_processing-left s g = omega (arith, ap one_if g)

  pub pops-left :
      (s : Flow Event) (e : Event) (q : Queue Event) (pick : Bool)
      → s.writing ≡ none
      → pop s.queue s.cancelled pick ≡ (returns e, q)
      → suc (left (record s { writing = some e; queue = q })) ≤ left s
  unfolding left
  pops-left s e q pick h k =
      omega (arith, ap (λ o. length (held o)) h, pop-shorter s.queue s.cancelled pick e q k)

  pub ends_writing-left :
      (s : Flow Event) → s.writes_on ≡ true → suc (left (record s { writes_on = false })) ≤ left s
  unfolding left
  ends_writing-left s g = omega (arith, ap one_if g)

  pub writes-left :
      (codecs : Codecs Event) (keys : PartitionKeyConfig) (schema : SchemaConfig) (router : Router)
      (s : Flow Event) (e : Event) (now : ℤ) (random : Text)
      → s.writing ≡ some e
      → s.pool.writer.message_ch.closed ≡ false
      → suc (left (written_out api codecs keys schema router s e now random)) ≤ left s
  unfolding left written_out
  writes-left codecs keys schema router s e now random h o =
      let fate = write_event-Written api codecs keys schema router s.pool e now random o in
      omega (
        arith,
        ap (λ x. length (held x)) h,
        Written-unfinished s.pool e _ _ fate,
        write_event-counted api codecs keys schema router now random (some s.pool.writer) e
            (Written-ne-panics s.pool e _ _ fate),
      )

  pub works-left :
      (s : Flow Event) (p : Pool Event)
      → left (record s { pool = p }) + unfinished s.pool ≡ left s + unfinished p
  unfolding left
  works-left s p = omega arith
