-- ===== src/Logger/Core.antt =====
-- internal/logger/kafka_core.go: the part of the logger that sends to Kafka. Its clones share one
-- channel, one context and one worker, which are `LogShared`; `KafkaCore` is what each has of its
-- own. zap's encoder, encoding/json and the random trace identifier come as arguments. The cases of
-- a `select` come as events, or as the choice that Go makes among the ready ones. The ticker's
-- period and the five seconds of flushBatch are the environment's.
pub mod Fields
pub mod History
pub mod Order
pub mod Refines
pub mod With
use tetragon_kafka_adapter.Prelude.{
  ℕ, ℤ, Bool, true, false, not, ◌&&◌, List, [], ◌∷◌, ◌++◌, Option, none, some, Text, str, one_of,
  text_eq, leb, length, if◌then◌else◌,
}
use tetragon_kafka_adapter.Channel.{Channel, make, has_room, put}
use tetragon_kafka_adapter.Tetragon.{TetragonApi}
use tetragon_kafka_adapter.Kafka.Producer.{ProducerMessage, send_message}

pub record LogWorker : Type 0 where
  pub batch : List Text
  -- The calls of flushBatch so far, oldest first.
  pub flushed : List (List Text)
  pub running : Bool

pub record LogShared : Type 0 where
  pub log_ch : Channel Text
  pub cancelled : Bool
  pub worker : LogWorker

pub record KafkaCore : Type 0 where
  -- Whether its own WaitGroup counts the worker, and whether its closeOnce has run.
  pub counts_worker : Bool
  pub closed_once : Bool

-- NewKafkaCore, with the worker started, and clone.
unfoldable pub new_kafka_core : KafkaCore × LogShared
new_kafka_core = (
  record { counts_worker = true; closed_once = false },
  record {
    log_ch = make 1000;
    cancelled = false;
    worker = record { batch = []; flushed = []; running = true };
  },
)

unfoldable pub clone : KafkaCore → KafkaCore
clone core = record { counts_worker = false; closed_once = false }

-- logWorker. The batch goes with the goroutine.
pub data LogEvent : Type 0 where
  log_done log_closed log_tick : LogEvent
  log_receives : Text → LogEvent

abbrev flush_logs : LogWorker → List Text → LogWorker
flush_logs w [] = w
flush_logs w (m ∷ ms) = record w { batch = []; flushed = w.flushed ++ (m ∷ ms) ∷ [] }

abbrev log_handle : LogWorker → LogEvent → LogWorker
log_handle w log_done = record (flush_logs w w.batch) { running = false }
log_handle w log_closed = record (flush_logs w w.batch) { running = false }
log_handle w (log_receives d) =
    let batch = w.batch ++ d ∷ [] in
    if leb 100 (length batch)
    then record w { batch = []; flushed = w.flushed ++ batch ∷ [] }
    else record w { batch = batch }
log_handle w log_tick = flush_logs w w.batch

unfoldable pub log_worker : LogWorker → LogEvent → LogWorker
log_worker w e = if w.running then log_handle w e else w

-- flushBatch: each log with the clock and the choice of SendMessage's select; its error is ignored.
pub record LogSend : Type 0 where
  pub log_data : Text
  pub now : ℤ
  pub sends : Bool

module _ (api : TetragonApi) where
  unfoldable pub log_flush_batch : (topic key : Text) → List LogSend → List ProducerMessage
  log_flush_batch topic key [] = []
  log_flush_batch topic key (s ∷ batch) =
      (send_message api s.sends s.now topic key s.log_data none [] (str "application/json")).1
      ++ log_flush_batch topic key batch

-- `m[k] = v`.
unfoldable pub put_key {ℓ} : {V : Type ℓ} → Text → V → List (Text × V) → List (Text × V)
put_key k v [] = (k, v) ∷ []
put_key k v ((j, u) ∷ m) = if text_eq j k then (k, v) ∷ m else (j, u) ∷ put_key k v m

-- The keys of the encoder that Write leaves out.
abbrev pub encoder_keys : List Text
encoder_keys = str "ts" ∷ str "level" ∷ str "msg" ∷ str "logger" ∷ str "caller" ∷ []

unfoldable pub merge {ℓ} : {V : Type ℓ} → List (Text × V) → List (Text × V) → List (Text × V)
merge log_msg [] = log_msg
merge log_msg ((k, v) ∷ fields) =
    if one_of k encoder_keys then merge log_msg fields else merge (put_key k v log_msg) fields

-- zapcore.Entry, its time in RFC 3339.
pub record Entry : Type 0 where
  pub time : Text
  pub level : Text
  pub logger_name : Text
  pub message : Text
  pub caller : Text

pub data WriteResult : Type 0 where
  encode_error marshal_error context_error : WriteResult
  queued dropped : WriteResult
  -- A send on the channel after Close has closed it.
  send_on_closed : WriteResult

-- The select of Write; `picks_send` is Go's choice when both the send and `ctx.Done()` are ready.
unfoldable pub offer : LogShared → Text → (picks_send : Bool) → WriteResult × LogShared
offer s d picks_send =
    if s.log_ch.closed
    then (if s.cancelled && not picks_send then (context_error, s) else (send_on_closed, s))
    else if has_room s.log_ch
    then (if s.cancelled && not picks_send
        then (context_error, s)
        else (queued, record s { log_ch = put s.log_ch d }))
    else if s.cancelled
    then (context_error, s)
    else (dropped, s)

module _ {V : Type 0} (text : Text → V) where
  unfoldable pub log_msg : Entry → (trace_id : Text) → List (Text × V)
  log_msg entry trace_id =
      (str "timestamp", text entry.time)
      ∷ (str "level", text entry.level)
      ∷ (str "logger", text entry.logger_name)
      ∷ (str "message", text entry.message)
      ∷ (str "caller", text entry.caller)
      ∷ (str "trace_id", text trace_id)
      ∷ []

  -- `encoded`: the bytes of EncodeEntry, `none` for its error; json.Unmarshal and json.Marshal.
  module _ (unmarshal : Text → Option (List (Text × V))) where
    unfoldable pub log_fields : Text → Entry → (trace_id : Text) → List (Text × V)
    log_fields buf entry trace_id = elim (unmarshal buf) [
      | none ↦ log_msg entry trace_id
      | some fields ↦ merge (log_msg entry trace_id) fields
    ]

    unfoldable pub write_log :
        (marshal : List (Text × V) → Option Text)
        → LogShared
        → (encoded : Option Text) → Entry
        → (trace_id : Text) → (picks_send : Bool) → WriteResult × LogShared
    write_log marshal s none entry trace_id picks_send = (encode_error, s)
    write_log marshal s (some buf) entry trace_id picks_send =
        elim (marshal (log_fields buf entry trace_id)) [
          | none ↦ (marshal_error, s)
          | some json ↦ offer s json picks_send
        ]

-- Sync waits for the core's WaitGroup, at most five seconds, and returns nil in either case.
pub data SyncResult : Type 0 where
  synced timed_out : SyncResult

unfoldable pub sync : KafkaCore → LogShared → (returns_in_time : Bool) → SyncResult
sync core s returns_in_time =
    if core.counts_worker && (s.worker.running && not returns_in_time) then timed_out else synced

pub data CloseResult : Type 0 where
  -- Done before; closed, with the wait for the worker or without; `close` of a closed channel.
  closed_before closed_waiting closed_at_once close_of_closed : CloseResult

unfoldable pub close_core : KafkaCore → LogShared → CloseResult × (KafkaCore × LogShared)
close_core core s =
    if core.closed_once
    then (closed_before, (core, s))
    else if s.log_ch.closed
    then (close_of_closed, (record core { closed_once = true }, record s { cancelled = true }))
    else (
      if core.counts_worker then closed_waiting else closed_at_once,
      (
        record core { closed_once = true },
        record s { cancelled = true; log_ch = record s.log_ch { closed = true } },
      ),
    )
