-- ===== src/Consumer/Flow.antt =====
-- The goroutines that main of cmd/consumer/main.go starts, with the channels between them, in every
-- interleaving: ReadEvents, processEvents, writeToKafka and the writer's workers, for a service that
-- has a producer. Of the metrics it has the counts of events that came in and of what became of
-- them. An event that a goroutine holds between two of its calls is part of the state.
-- RunWithReconnect is taken without its waits and its limit of attempts: the relation has all
-- runs of the code, and more.
pub mod Pools
pub mod Places
pub mod Kept
pub mod Arrivals
pub mod Counted
pub mod Lines
pub mod Ordered
pub mod Started
pub mod Going
pub mod Draining
pub mod Formed
pub mod Left
pub mod Finishing
pub mod Ended
use tetragon_kafka_adapter.Prelude.{
  ℕ, suc, ℤ, ◌<◌, ◌≡◌, ◌≢◌, Bool, true, false, List, [], ◌∷◌, ◌++◌, Option, none, some, Text,
  Float64, length, drop,
}
use tetragon_kafka_adapter.Prelude.Every.{All}
use tetragon_kafka_adapter.Channel.{Channel, has_room}
use tetragon_kafka_adapter.Config.{StreamConfig, PartitionKeyConfig, SchemaConfig}
use tetragon_kafka_adapter.Tetragon.{TetragonApi}
use tetragon_kafka_adapter.Router.{Router}
use tetragon_kafka_adapter.Queue.{Queue, QueueError, Outcome, returns, fails, blocks, pop}
use tetragon_kafka_adapter.Grpc.Stream.{Turn, Reading, is_running, read_turn, read_events}
use tetragon_kafka_adapter.Kafka.Writer.{Message, Writer, WriteResult, written, queue_full, panics}
use tetragon_kafka_adapter.Kafka.Pool.{Pool, Step, start_pool}
use tetragon_kafka_adapter.Pipeline.Accounts.{arrival_count, outcome_count}
use tetragon_kafka_adapter.Pipeline.{
  Codecs, Processed, not_sampled, pushed, Handled, normalize_failed, serialize_failed, no_writer,
  wrote, process_event, write_event,
}

pub record Flow (E : Type 0) : Type 0 where
  pub cancelled : Bool
  -- The last call of ReadEvents, running or returned.
  pub reading : Reading E
  -- ReadEvents is past its look at the context, in Recv or in the select after it.
  pub receiving : Bool
  -- processEvents and writeToKafka have not returned.
  pub processes_on : Bool
  pub writes_on : Bool
  pub grpc_event_ch : Channel E
  -- The event that processEvents has received and not yet pushed.
  pub processing : Option E
  pub queue : Queue E
  -- The event that writeToKafka has popped and not yet written.
  pub writing : Option E
  pub pool : Pool E
  -- What EventsInTotal counts over all types, and what it has yet to count: processEvents raises it
  -- only after Push has returned.
  pub arrivals : ℕ
  pub arrivals_due : ℕ
  -- The same of EventsOutTotal and NormalizeErrorsTotal, which writeToKafka raises after Write or
  -- after the error.
  pub outcomes : ℕ
  pub outcomes_due : ℕ
  -- Kept for the statements alone: what all calls of ReadEvents have delivered, and the events that were not
  -- sampled, that Push refused, and that writeToKafka could not write.
  pub delivered : List E
  pub skipped : List E
  pub refused : List E
  pub failed : List E

module _ {E : Type 0} where
  -- `opens` says whether the first stream opens.
  unfoldable pub start_flow : (opens : Bool) → Channel E → Queue E → Writer E → Flow E
  start_flow opens ch q w = record {
    cancelled = false;
    reading = read_events opens [];
    receiving = false;
    processes_on = true;
    writes_on = true;
    grpc_event_ch = ch;
    processing = none;
    queue = q;
    writing = none;
    pool = start_pool w;
    arrivals = 0;
    arrivals_due = 0;
    outcomes = 0;
    outcomes_due = 0;
    delivered = [];
    skipped = [];
    refused = [];
    failed = [];
  }

  -- What the turn adds to the events delivered goes into the channel.
  unfoldable pub read_into : Flow E → Turn E → Flow E
  read_into s t =
      let r = read_turn s.reading t in
      let new = drop (length s.reading.delivered) r.delivered in
      record s {
        reading = r;
        receiving = false;
        grpc_event_ch = record s.grpc_event_ch { items = s.grpc_event_ch.items ++ new };
        delivered = s.delivered ++ new;
      }

  -- One more event, if the result is of that kind.
  abbrev pub if_skipped : Processed → E → List E → List E
  if_skipped not_sampled e es = es ++ e ∷ []
  if_skipped (pushed o) e es = es

  abbrev pub if_refused : Processed → E → List E → List E
  if_refused (pushed (fails x)) e es = es ++ e ∷ []
  if_refused (pushed (returns r)) e es = es
  if_refused (pushed blocks) e es = es
  if_refused not_sampled e es = es

  abbrev pub if_failed : Handled → E → List E → List E
  if_failed (wrote written) e es = es
  if_failed (wrote queue_full) e es = es ++ e ∷ []
  if_failed (wrote panics) e es = es ++ e ∷ []
  if_failed normalize_failed e es = es ++ e ∷ []
  if_failed serialize_failed e es = es ++ e ∷ []
  if_failed no_writer e es = es ++ e ∷ []

  -- The writer after a call of Write: a message at its end was accepted.
  abbrev pub with_writer : Pool E → Option (Writer E) → Pool E
  with_writer p none = p
  with_writer p (some w) = record p {
    writer = w;
    accepted = p.accepted ++ drop (length p.writer.message_ch.items) w.message_ch.items;
  }

-- What rand.Read gives for a trace identifier: sixteen bytes.
abbrev pub AreRandom : Text → Type 0
AreRandom random = (length random ≡ 16) × All (λ c. c < 256) random

module _ (api : TetragonApi) where
  open api use {Event}

  unfoldable pub processed : StreamConfig → Flow Event → Event → Float64 → Bool → Flow Event
  processed stream s e draw pick =
      let (r, q, ms) = process_event api stream draw s.cancelled pick s.queue e in
      record s {
        processing = none;
        queue = q;
        arrivals_due = arrival_count ms;
        skipped = if_skipped r e s.skipped;
        refused = if_refused r e s.refused;
      }

  unfoldable pub written_out :
      Codecs Event
      → PartitionKeyConfig
      → SchemaConfig
      → Router
      → Flow Event
      → Event
      → (now : ℤ) (random : Text) → Flow Event
  written_out codecs keys schema router s e now random =
      let (h, w, ms) =
        write_event api codecs keys schema router now random (some s.pool.writer) e in
      record s {
        writing = none;
        pool = with_writer s.pool w;
        outcomes_due = outcome_count ms;
        failed = if_failed h e s.failed;
      }

  module _ (codecs : Codecs Event) (stream : StreamConfig) (keys : PartitionKeyConfig)
      (schema : SchemaConfig) (router : Router) (max : ℤ) where
    -- A Push that waits is no step. A write after Close panics, which ends writeToKafka with the event
    -- in its hand: no step either.
    pub data FlowStep : Flow Event → Flow Event → Type 0 where
      looks :
          (s : Flow Event)
          → is_running s.reading ≡ true
          → s.receiving ≡ false
          → s.cancelled ≡ false
          → FlowStep s (record s { receiving = true })
      finds_cancelled :
          (s : Flow Event) (t : Turn Event)
          → is_running s.reading ≡ true
          → s.receiving ≡ false
          → s.cancelled ≡ true
          → t.cancelled ≡ true
          → FlowStep s (record s { reading = read_turn s.reading t })
      reads :
          (s : Flow Event) (t : Turn Event)
          → is_running s.reading ≡ true
          → s.receiving ≡ true
          → t.cancelled ≡ false
          → t.room ≡ has_room s.grpc_event_ch
          → t.done ≡ s.cancelled
          → FlowStep s (read_into s t)
      -- RunWithReconnect looks at the context and calls ReadEvents again.
      reopens :
          (s : Flow Event) (opens : Bool)
          → is_running s.reading ≡ false
          → s.cancelled ≡ false
          → FlowStep s (record s { reading = read_events opens []; receiving = false })
      cancels : (s : Flow Event) → FlowStep s (record s { cancelled = true })
      receives_event :
          (s : Flow Event) (e : Event) (rest : List Event)
          → s.processes_on ≡ true
          → s.processing ≡ none
          → s.arrivals_due ≡ 0
          → s.grpc_event_ch.items ≡ e ∷ rest
          → FlowStep s (record s {
            processing = some e;
            grpc_event_ch = record s.grpc_event_ch { items = rest };
          })
      ends_processing :
          (s : Flow Event)
          → s.processes_on ≡ true
          → s.processing ≡ none
          → s.arrivals_due ≡ 0
          → s.cancelled ≡ true
          → FlowStep s (record s { processes_on = false })
      processes :
          (s : Flow Event) (e : Event) (draw : Float64) (pick : Bool)
          → s.processing ≡ some e
          → (process_event api stream draw s.cancelled pick s.queue e).0 ≢ pushed blocks
          → FlowStep s (processed stream s e draw pick)
      counts_in :
          (s : Flow Event) (n : ℕ)
          → s.arrivals_due ≡ suc n
          → FlowStep s (record s { arrivals = suc s.arrivals; arrivals_due = n })
      pops :
          (s : Flow Event) (e : Event) (q : Queue Event) (pick : Bool)
          → s.writes_on ≡ true
          → s.writing ≡ none
          → s.outcomes_due ≡ 0
          → pop s.queue s.cancelled pick ≡ (returns e, q)
          → FlowStep s (record s { writing = some e; queue = q })
      ends_writing :
          (s : Flow Event) (x : QueueError) (pick : Bool)
          → s.writes_on ≡ true
          → s.writing ≡ none
          → s.outcomes_due ≡ 0
          → (pop s.queue s.cancelled pick).0 ≡ fails x
          → FlowStep s (record s { writes_on = false })
      writes_event :
          (s : Flow Event) (e : Event) (now : ℤ) (random : Text)
          → s.writing ≡ some e
          → s.pool.writer.message_ch.closed ≡ false
          → AreRandom random
          → FlowStep s (written_out codecs keys schema router s e now random)
      counts_out :
          (s : Flow Event) (n : ℕ)
          → s.outcomes_due ≡ suc n
          → FlowStep s (record s { outcomes = suc s.outcomes; outcomes_due = n })
      -- A step of a worker, or Close.
      works :
          (s : Flow Event) (p : Pool Event)
          → Step max s.cancelled s.pool p
          → p.accepted ≡ s.pool.accepted
          → FlowStep s (record s { pool = p })

    pub data FlowReach (s : Flow Event) : Flow Event → Type 0 where
      stays : FlowReach s s
      steps : {t u : Flow Event} → FlowReach s t → FlowStep t u → FlowReach s u
