-- ===== src/Consumer/Flow/Ended.antt =====
-- How the goroutines of cmd/consumer/main.go come to their end after the cancellation.
use tetragon_kafka_adapter.Prelude.{
  ℕ, zero, suc, ℤ, pos, ◌≤◌, ◌≡◌, ◌≢◌, refl, ◌∙◌, sym, ◌⊎◌, inl, inr, Bool, true, false, none, some,
  one_f, get_elem?, arith, Option-cases, Bool-cases,
}
use tetragon_kafka_adapter.Prelude.Every.{All}
use tetragon_kafka_adapter.Channel.{has_room}
use tetragon_kafka_adapter.Config.{StreamConfig, PartitionKeyConfig, SchemaConfig}
use tetragon_kafka_adapter.Tetragon.{TetragonApi}
use tetragon_kafka_adapter.Router.{Router}
use tetragon_kafka_adapter.Queue.{Queue, fails, context_cancelled, blocks, push, pop}
use tetragon_kafka_adapter.Queue.Sampler.{should_sample}
use tetragon_kafka_adapter.Grpc.Stream.{Turn, is_running}
use tetragon_kafka_adapter.Kafka.Writer.{Message}
use tetragon_kafka_adapter.Kafka.Worker.{Worker, context_done}
use tetragon_kafka_adapter.Kafka.Pool.{turn, cancelled}
use tetragon_kafka_adapter.Kafka.Pool.Drained.{Returned}
use tetragon_kafka_adapter.Kafka.Pool.Ending.{some_running, accepted-turn}
use tetragon_kafka_adapter.Kafka.Pool.Progress.{advance}
use tetragon_kafka_adapter.Pipeline.{Codecs, pushed, process_event}
use tetragon_kafka_adapter.Consumer.Flow.{
  Flow, read_into, processed, written_out, FlowStep, finds_cancelled, reads, ends_processing,
  processes, ends_writing, counts_in, counts_out, writes_event, works, FlowReach, stays, steps,
}
use tetragon_kafka_adapter.Consumer.Flow.Pools.{write_event-Written}
use tetragon_kafka_adapter.Consumer.Flow.Going.{Written-open, zeros, zeros-AreRandom, then_on}
use tetragon_kafka_adapter.Consumer.Flow.Finishing.{move, FlowStep-left}
use tetragon_kafka_adapter.Consumer.Flow.Left.{left}

zero_or_suc : (n : ℕ) → (n ≡ 0) ⊎ ((m : ℕ) × (n ≡ suc m))
zero_or_suc zero = inl refl
zero_or_suc (suc n) = inr (n, refl)

module _ {E : Type 0} where
  abbrev IsOpen : Flow E → Type 0
  IsOpen s = s.pool.writer.message_ch.closed ≡ false

  -- ReadEvents, processEvents, writeToKafka and all workers have returned.
  pub record IsOver (s : Flow E) : Type 0 where
    pub read : is_running s.reading ≡ false
    pub processed : s.processes_on ≡ false
    pub written : s.writes_on ≡ false
    pub worked : All Returned s.pool.workers

  abbrev failing : Bool → Bool → Turn E
  failing found room = record {
    cancelled = found;
    recv = none;
    room = room;
    done = true;
    pick = true;
  }

  pop_cancelled : (q : Queue E) → (pop q true false).0 ≡ fails context_cancelled
  unfolding pop
  pop_cancelled q = ground arith

module _ (api : TetragonApi) where
  open api use {Event}

  process_event-returns :
      (stream : StreamConfig) (q : Queue Event) (e : Event)
      → (process_event api stream one_f true true q e).0 ≢ pushed blocks
  unfolding process_event should_sample push
  process_event-returns stream q e = ground arith

  module _ (codecs : Codecs Event) (stream : StreamConfig) (keys : PartitionKeyConfig)
      (schema : SchemaConfig) (router : Router) (max : ℤ) where
    Moves : Flow Event → Type 0
    Moves s =
        (t : Flow Event) × (x : FlowStep api codecs stream keys schema router max s t) × (move api
            codecs stream keys schema router max x
          ≡ 1)
        × IsOpen t

    reader-Moves :
        (s : Flow Event) → s.cancelled ≡ true → IsOpen s → is_running s.reading ≡ true → Moves s
    unfolding Moves move read_into
    reader-Moves s c o g = elim (Bool-cases s.receiving) [
      | inl m ↦
          let t : Turn Event = failing false (has_room s.grpc_event_ch) in
          (read_into s t, reads s t g m refl refl (sym c), refl, o)
      | inr m ↦ (_, finds_cancelled s (failing true true) g m c refl, refl, o)
    ]

    processes-Moves :
        (s : Flow Event) → s.cancelled ≡ true → IsOpen s → s.processes_on ≡ true → Moves s
    unfolding Moves move processed
    processes-Moves s c o g = elim (Option-cases s.processing) [
      | inl nothing ↦ elim (zero_or_suc s.arrivals_due) [
        | inl counted ↦ (_, ends_processing s g nothing counted c, refl, o)
        | inr (n, due) ↦ (_, counts_in s n due, refl, o)
      ]
      | inr (e, h) ↦
          (_, processes s e one_f true h (rw c (process_event-returns stream s.queue e)), refl, o)
    ]

    writes-Moves : (s : Flow Event) → s.cancelled ≡ true → IsOpen s → s.writes_on ≡ true → Moves s
    unfolding Moves move written_out
    writes-Moves s c o g = elim (Option-cases s.writing) [
      | inl nothing ↦ elim (zero_or_suc s.outcomes_due) [
        | inl counted ↦ (
          _,
          ends_writing s context_cancelled false g nothing counted (rw c (pop_cancelled s.queue)),
          refl,
          o,
        )
        | inr (n, due) ↦ (_, counts_out s n due, refl, o)
      ]
      | inr (e, h) ↦ (
        _,
        writes_event s e (pos 0) zeros h o zeros-AreRandom,
        refl,
        Written-open s.pool e _ _
              (write_event-Written api codecs keys schema router s.pool e (pos 0) zeros o)
            ∙ o,
      )
    ]

    worker-Moves :
        (s : Flow Event) (i : ℕ) (w : Worker (Message Event))
        → s.cancelled ≡ true
        → IsOpen s
        → get_elem? s.pool.workers i ≡ some w
        → w.running ≡ true
        → Moves s
    unfolding Moves move turn advance
    worker-Moves s i w c o h r = (
      _,
      works s (turn max s.pool i w context_done) (cancelled s.pool i w h r c)
          (accepted-turn max s.pool i w context_done),
      refl,
      o,
    )

    some_move : (s : Flow Event) → s.cancelled ≡ true → IsOpen s → IsOver s ⊎ Moves s
    some_move s c o = elim (Bool-cases (is_running s.reading)) [
      | inl g ↦ inr (reader-Moves s c o g)
      | inr r ↦ elim (Bool-cases s.processes_on) [
        | inl g ↦ inr (processes-Moves s c o g)
        | inr p ↦ elim (Bool-cases s.writes_on) [
          | inl g ↦ inr (writes-Moves s c o g)
          | inr w ↦ elim (some_running s.pool.workers) [
            | inl all ↦ inl (record { read = r; processed = p; written = w; worked = all })
            | inr (i, v, h, k) ↦ inr (worker-Moves s i v c o h k)
          ]
        ]
      ]
    ]

    ends_within :
        (k : ℕ) (s : Flow Event)
        → s.cancelled ≡ true
        → IsOpen s
        → left s ≤ k
        → (t : Flow Event) × FlowReach api codecs stream keys schema router max s t × IsOver t
    unfolding Moves
    ends_within zero s c o l = elim (some_move s c o) [
      | inl over ↦ (s, stays, over)
      | inr (t, x, one, o') ↦
          absurd
            (omega (arith, one, (FlowStep-left api codecs stream keys schema router max x c).1))
    ]
    ends_within (suc k) s c o l = elim (some_move s c o) [
      | inl over ↦ (s, stays, over)
      | inr (t, x, one, o') ↦
          let (c', less) = FlowStep-left api codecs stream keys schema router max x c in
          let (u, r, over) = ends_within k t c' o' (omega (arith, one, less)) in
          (u, then_on api codecs stream keys schema router max (steps stays x) r, over)
    ]

    -- From any state in which the context is cancelled and the writer is open, the goroutines can go
    -- on to their end: ReadEvents, processEvents, writeToKafka and every worker have returned.
    pub FlowReach-IsOver :
        (s : Flow Event)
        → s.cancelled ≡ true
        → s.pool.writer.message_ch.closed ≡ false
        → (t : Flow Event) × FlowReach api codecs stream keys schema router max s t × IsOver t
    FlowReach-IsOver s c o = ends_within (left s) s c o (omega arith)
