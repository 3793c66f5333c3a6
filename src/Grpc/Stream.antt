-- ===== src/Grpc/Stream.antt =====
-- ReadEvents of internal/grpc/stream.go, turn by turn. The limit on how often a drop is logged
-- concerns the log alone and is left out.
pub mod Accounting
use tetragon_kafka_adapter.Prelude.{
  ℕ, Bool, true, false, ◌||◌, ◌&&◌, not, List, [], ◌∷◌, ◌++◌, Option, none, some, str,
  if◌then◌else◌,
}
use tetragon_kafka_adapter.Metrics.{
  Metric, grpc_errors, grpc_connection_status, grpc_events_received, drops,
}

pub data StreamError : Type 0 where
  open_failed recv_failed context_cancelled : StreamError

-- One turn of the loop: whether the context is found cancelled before it, what Recv gives (`none`
-- is an error), and for the select whether the channel has room, whether the context is cancelled
-- by then, and whether Go takes the channel where it could take either.
pub record Turn (E : Type 0) : Type 0 where
  pub cancelled : Bool
  pub recv : Option E
  pub room : Bool
  pub done : Bool
  pub pick : Bool

pub record Reading (E : Type 0) : Type 0 where
  pub received : List E
  pub delivered : List E
  pub dropped : List E
  pub metrics : List Metric
  -- `none`: ReadEvents still runs. `some r`: it has returned r, and `some none` is nil.
  pub returned : Option (Option StreamError)

module _ {E : Type 0} where
  abbrev give_up : Reading E → StreamError → List Metric → Reading E
  give_up s e ms = record s { returned = some (some e); metrics = s.metrics ++ ms }

  hand_over : Reading E → Turn E → E → Reading E
  hand_over s t e =
      let seen = record s {
        received = s.received ++ e ∷ [];
        metrics = s.metrics ++ grpc_events_received ∷ [];
      } in
      if t.room && (t.pick || not t.done)
      then record seen { delivered = s.delivered ++ e ∷ [] }
      else if t.done
      then give_up seen context_cancelled []
      else record seen {
        dropped = s.dropped ++ e ∷ [];
        metrics = seen.metrics ++ drops (str "stream_channel_full") ∷ [];
      }

  unfoldable pub read_turn : Reading E → Turn E → Reading E
  unfolding hand_over
  read_turn s t = if t.cancelled then give_up s context_cancelled [] else elim t.recv [
    | none ↦ give_up s recv_failed (grpc_errors (str "recv") ∷ grpc_connection_status 0 ∷ [])
    | some e ↦ hand_over s t e
  ]

  abbrev pub is_running : Reading E → Bool
  is_running s = elim s.returned [ none ↦ true | some r ↦ false ]

  unfoldable pub read_loop : Reading E → List (Turn E) → Reading E
  read_loop s [] = s
  read_loop s (t ∷ ts) = read_loop (if is_running s then read_turn s t else s) ts

  abbrev pub no_events : Reading E
  no_events = record { received = []; delivered = []; dropped = []; metrics = []; returned = none }

  -- `opens` says whether GetEventsClient succeeds.
  unfoldable pub read_events : (opens : Bool) → List (Turn E) → Reading E
  read_events opens ts =
      if opens
      then read_loop (record no_events { metrics = grpc_connection_status 1 ∷ [] }) ts
      else give_up no_events open_failed (grpc_errors (str "get_events_client") ∷ [])
