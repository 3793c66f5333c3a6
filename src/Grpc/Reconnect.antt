-- ===== src/Grpc/Reconnect.antt =====
-- RunWithReconnect of internal/grpc/reconnect.go, one round of its loop at a time. A round's
-- environment says what the context, the stream, the network and the random number do in it.
pub mod Attempts
use tetragon_kafka_adapter.Prelude.{
  ℕ, suc, ◌+◌, ◌*◌, ◌%◌, ◌^◌, ℤ, pos, Bool, true, false, ◌&&◌, List, [], ◌∷◌, ◌++◌, Option, none,
  some, ltb_ℤ, leb_ℤ, if◌then◌else◌,
}
use tetragon_kafka_adapter.Config.{ReconnectConfig}
use tetragon_kafka_adapter.Config.Backoff.{get_reconnect_backoff}
use tetragon_kafka_adapter.Metrics.{Metric, grpc_reconnect, grpc_connection_status}
use tetragon_kafka_adapter.Grpc.Stream.{StreamError, Turn, read_events}

pub record Round (E : Type 0) : Type 0 where
  -- The context is cancelled at the first and at the second test, and before the timer fires.
  pub cancelled_first : Bool
  pub cancelled_second : Bool
  pub cancelled_asleep : Bool
  -- What the stream does, if there is a client.
  pub opens : Bool
  pub turns : List (Turn E)
  -- rng.Intn(1000).
  pub jitter_ms : ℕ
  -- NewClient succeeds.
  pub dials : Bool

pub data Status : Type 0 where
  -- Between two rounds, and inside ReadEvents.
  looping reading : Status
  -- Returned: context cancelled, stream closed without an error, no attempts left.
  cancelled closed_normally exhausted : Status

pub record Manager : Type 0 where
  pub status : Status
  pub has_client : Bool
  pub attempt : ℕ
  -- The backoffs of the reconnects, as words of nanoseconds, oldest first.
  pub backoffs : List ℕ
  pub metrics : List Metric

unfoldable pub new_manager : Manager
new_manager = record {
  status = looping;
  has_client = true;
  attempt = 0;
  backoffs = [];
  metrics = [];
}

-- `backoff += jitter`.
abbrev pub with_jitter : ReconnectConfig → ℕ → ℕ → ℕ
with_jitter r jitter_ms backoff =
    if r.jitter then (backoff + jitter_ms * 1000000) % 2 ^ 64 else backoff

abbrev pub is_looping : Status → Bool
is_looping looping = true
is_looping s = false

module _ {E : Type 0} where
  -- From the choice of the backoff to the end of the round.
  unfoldable pub reconnect : ReconnectConfig → Manager → Round E → Manager
  reconnect r m round =
      let backoff = with_jitter r round.jitter_ms (get_reconnect_backoff r (pos m.attempt)) in
      let m' = record m {
        has_client = round.dials;
        backoffs = m.backoffs ++ backoff ∷ [];
        metrics = m.metrics ++ grpc_reconnect ∷ [];
      } in
      if round.cancelled_asleep
      then record m' { status = cancelled }
      else record m' { attempt = suc m.attempt }

  -- From the second test of the context on.
  unfoldable pub after_stream : ReconnectConfig → Manager → Round E → Manager
  after_stream r m round =
      if round.cancelled_second
      then record m { status = cancelled }
      else if ltb_ℤ (pos 0) r.max_attempts && leb_ℤ r.max_attempts (pos m.attempt)
      then record m { status = exhausted }
      else reconnect r m round

  -- What the result of ReadEvents leads to (`none`: it has not returned).
  unfoldable pub stream_result :
      ReconnectConfig → Manager → Round E → Option (Option StreamError) → Manager
  stream_result r m round none = record m { status = reading }
  stream_result r m round (some none) = record m {
    status = closed_normally;
    metrics = m.metrics ++ grpc_connection_status 0 ∷ [];
  }
  stream_result r m round (some (some e)) =
      after_stream r (record m { metrics = m.metrics ++ grpc_connection_status 0 ∷ [] }) round

  unfoldable pub run_round : ReconnectConfig → Manager → Round E → Manager
  run_round r m round =
      if round.cancelled_first
      then record m { status = cancelled }
      else if m.has_client
      then stream_result r m round (read_events round.opens round.turns).returned
      else after_stream r m round

  unfoldable pub run_with_reconnect : ReconnectConfig → Manager → List (Round E) → Manager
  run_with_reconnect r m [] = m
  run_with_reconnect r m (round ∷ rounds) =
      run_with_reconnect r (if is_looping m.status then run_round r m round else m) rounds
