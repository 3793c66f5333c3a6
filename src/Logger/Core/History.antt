-- ===== src/Logger/Core/History.antt =====
-- The goroutines around the core of internal/logger/kafka_core.go as a sequence of their steps.
use tetragon_kafka_adapter.Prelude.{
  Bool, true, false, List, [], ◌∷◌, ◌++◌, Option, none, some, Text, if◌then◌else◌,
}
use tetragon_kafka_adapter.Channel.{first}
use tetragon_kafka_adapter.Logger.Core.{
  LogEvent, log_done, log_closed, log_tick, log_receives, log_worker, KafkaCore, LogShared,
  new_kafka_core, WriteResult, queued, offer, close_core,
}

-- What the goroutines do next: a select of Write, a case of the worker's select, Close of a core.
pub data LogAction : Type 0 where
  offers : Text → (picks_send : Bool) → LogAction
  worker_takes worker_ticks worker_sees_done worker_sees_closed : LogAction
  closes_core : KafkaCore → LogAction

-- The shared state, and the messages that Write put into the channel so far, oldest first.
pub record LogHistory : Type 0 where
  pub shared : LogShared
  pub accepted : List Text

abbrev pub with_event : LogHistory → LogEvent → LogHistory
with_event h e = record h { shared = record h.shared { worker = log_worker h.shared.worker e } }

abbrev pub take_log : LogHistory → Option (Text × List Text) → LogHistory
take_log h none = h
take_log h (some (d, rest)) = record h {
  shared = record h.shared {
    worker = log_worker h.shared.worker (log_receives d);
    log_ch = record h.shared.log_ch { items = rest };
  };
}

abbrev pub is_queued : WriteResult → Bool
is_queued queued = true
is_queued r = false

-- A case of the worker's select that is not ready changes nothing.
unfoldable pub log_act : LogHistory → LogAction → LogHistory
log_act h (offers d picks_send) = record {
  shared = (offer h.shared d picks_send).1;
  accepted = if is_queued (offer h.shared d picks_send).0 then h.accepted ++ d ∷ [] else h.accepted;
}
log_act h worker_takes =
    if h.shared.worker.running then take_log h (first h.shared.log_ch.items) else h
log_act h worker_ticks = with_event h log_tick
log_act h worker_sees_done = if h.shared.cancelled then with_event h log_done else h
log_act h worker_sees_closed = elim (first h.shared.log_ch.items) [
  | none ↦ if h.shared.log_ch.closed then with_event h log_closed else h
  | some next ↦ h
]
log_act h (closes_core core) = record h { shared = (close_core core h.shared).1.1 }

unfoldable pub log_acts : LogHistory → List LogAction → LogHistory
log_acts h [] = h
log_acts h (a ∷ rest) = log_acts (log_act h a) rest

unfoldable pub new_history : LogHistory
new_history = record { shared = new_kafka_core.1; accepted = [] }
