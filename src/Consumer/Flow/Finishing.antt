-- ===== src/Consumer/Flow/Finishing.antt =====
-- The goroutines of cmd/consumer/main.go once the context is cancelled.
use tetragon_kafka_adapter.Prelude.{ℕ, ℤ, ◌+◌, ◌≤◌, ◌≡◌, refl, true, arith}
use tetragon_kafka_adapter.Config.{StreamConfig, PartitionKeyConfig, SchemaConfig}
use tetragon_kafka_adapter.Tetragon.{TetragonApi}
use tetragon_kafka_adapter.Router.{Router}
use tetragon_kafka_adapter.Kafka.Pool.Progress.{advance, Step-unfinished_open}
use tetragon_kafka_adapter.Pipeline.{Codecs}
use tetragon_kafka_adapter.Consumer.Flow.{
  Flow, read_into, processed, written_out, FlowStep, looks, finds_cancelled, reads, reopens,
  cancels, receives_event, ends_processing, processes, pops, ends_writing, counts_in, counts_out,
  writes_event, works, FlowReach, stays, steps,
}
use tetragon_kafka_adapter.Consumer.Flow.Left.{
  left, processes-left, reads-left, gives_up-left, cancels-left, receives-left,
  ends_processing-left, pops-left, ends_writing-left, counts_in-left, counts_out-left, writes-left,
  works-left,
}

module _ (api : TetragonApi) where
  open api use {Event}

  module _ (codecs : Codecs Event) (stream : StreamConfig) (keys : PartitionKeyConfig)
      (schema : SchemaConfig) (router : Router) (max : ℤ) where
    -- All moves but those that may repeat without end: the tickers of a worker, cancel and Close.
    unfoldable pub move :
        {s t : Flow Event} → FlowStep api codecs stream keys schema router max s t → ℕ
    move (cancels s) = 0
    move (works s p x a) = advance x
    move x = 1

    pub moves : {s t : Flow Event} → FlowReach api codecs stream keys schema router max s t → ℕ
    moves stays = 0
    moves (steps r x) = move x + moves r

    pub FlowStep-left :
        {s t : Flow Event} (x : FlowStep api codecs stream keys schema router max s t)
        → s.cancelled ≡ true
        → (t.cancelled ≡ true) × (move x + left t ≤ left s)
    unfolding move read_into processed written_out
    FlowStep-left (looks s g m k) c = absurd (cc (c, k))
    FlowStep-left (finds_cancelled s t g m k h) c = (c, omega (arith, gives_up-left api s t g h))
    FlowStep-left (reads s t g m k room done) c = (c, omega (arith, reads-left api s t g m))
    FlowStep-left (reopens s b g k) c = absurd (cc (c, k))
    FlowStep-left (cancels s) c = (refl, omega (arith, cancels-left api s))
    FlowStep-left (receives_event s e rest g h d q) c =
        (c, omega (arith, receives-left api s e rest h q))
    FlowStep-left (ends_processing s g h d k) c = (c, omega (arith, ends_processing-left api s g))
    FlowStep-left (processes s e draw pick h b) c =
        (c, omega (arith, processes-left api stream s e draw pick h))
    FlowStep-left (pops s e q pick g h d k) c = (c, omega (arith, pops-left api s e q pick h k))
    FlowStep-left (ends_writing s x pick g h d k) c = (c, omega (arith, ends_writing-left api s g))
    FlowStep-left (writes_event s e now random h o b) c =
        (c, omega (arith, writes-left api codecs keys schema router s e now random h o))
    FlowStep-left (counts_in s n h) c = (c, omega (arith, counts_in-left api s n h))
    FlowStep-left (counts_out s n h) c = (c, omega (arith, counts_out-left api s n h))
    FlowStep-left (works s p x a) c =
        (c, omega (arith, works-left api s p, Step-unfinished_open x a))

    -- Once the context is cancelled, the goroutines make only so many moves: in any run, in any
    -- order, the moves and what is then left add up to at most what was left, where a move is any
    -- step but a tick of a worker, a refused Write, cancel and Close. So ReadEvents, processEvents, writeToKafka and the
    -- workers cannot go on for ever.
    pub FlowReach-left :
        {s t : Flow Event} (r : FlowReach api codecs stream keys schema router max s t)
        → s.cancelled ≡ true
        → (t.cancelled ≡ true) × (moves r + left t ≤ left s)
    unfolding moves
    FlowReach-left stays c = (c, omega arith)
    FlowReach-left (steps r x) c =
        let (c', l) = FlowReach-left r c in
        let (c'', l') = FlowStep-left x c' in (c'', omega (arith, l, l'))
