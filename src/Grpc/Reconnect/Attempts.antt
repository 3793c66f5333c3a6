-- ===== src/Grpc/Reconnect/Attempts.antt =====
-- Attempts and waits of RunWithReconnect of internal/grpc/reconnect.go.
use tetragon_kafka_adapter.Prelude.{
  ℕ, zero, suc, ◌≡◌, true, ◌⊎◌, refl, ◌≢◌, pos, ◌≤ℤ◌, ◌<ℤ◌, false, List, [], ◌∷◌, ◌++◌, Option,
  none, some, eq_of_parts, length, length-append, if◌then◌else◌, arith,
}
use tetragon_kafka_adapter.Config.{ReconnectConfig}
use tetragon_kafka_adapter.Config.Backoff.{get_reconnect_backoff}
use tetragon_kafka_adapter.Grpc.Stream.{StreamError, read_events}
use tetragon_kafka_adapter.Grpc.Stream.Accounting.{read_events-IsAccounted}
use tetragon_kafka_adapter.Grpc.Reconnect.{
  Round, looping, closed_normally, exhausted, Manager, new_manager, with_jitter, is_looping,
  reconnect, after_stream, stream_result, run_round, run_with_reconnect,
}

-- The backoffs of attempts 0 to n - 1.
pub schedule : ReconnectConfig → ℕ → List ℕ
schedule r zero = []
schedule r (suc n) = schedule r n ++ get_reconnect_backoff r (pos n) ∷ []

length-schedule : (r : ReconnectConfig) (n : ℕ) → length (schedule r n) ≡ n
unfolding schedule
length-schedule r zero = refl
length-schedule r (suc n) = omega (
  arith,
  length-append (schedule r n) (get_reconnect_backoff r (pos n) ∷ []),
  length-schedule r n,
)

-- While it loops the manager has reconnected as often as its attempt counter says; a limit above 0
-- is kept also by the reconnect in which it is cancelled, and it gives up only at the limit.
pub record IsCounted (r : ReconnectConfig) (m : Manager) : Type 0 where
  pub counted : m.status ≡ looping → length m.backoffs ≡ m.attempt
  pub limited : pos 0 <ℤ r.max_attempts → pos (length m.backoffs) ≤ℤ r.max_attempts
  pub spent :
      m.status ≡ exhausted → (pos 0 <ℤ r.max_attempts) × (pos (length m.backoffs) ≡ r.max_attempts)
  pub scheduled : r.jitter ≡ false → m.backoffs ≡ schedule r (length m.backoffs)
  pub open_end : m.status ≢ closed_normally

schedule-snoc :
    (r : ReconnectConfig) (m : Manager)
    → m.backoffs ≡ schedule r (length m.backoffs)
    → length m.backoffs ≡ m.attempt
    → m.backoffs ++ get_reconnect_backoff r (pos m.attempt) ∷ []
      ≡ schedule r (length (m.backoffs ++ get_reconnect_backoff r (pos m.attempt) ∷ []))
unfolding schedule
schedule-snoc r m h e =
    let n : length (m.backoffs ++ get_reconnect_backoff r (pos m.attempt) ∷ []) ≡ suc m.attempt =
      omega (arith, e, length-append m.backoffs (get_reconnect_backoff r (pos m.attempt) ∷ [])) in
    rw n (cc (h, e))

new_manager-IsCounted : (r : ReconnectConfig) → IsCounted r new_manager
unfolding new_manager schedule
new_manager-IsCounted r = record {
  counted = λ e. refl;
  limited = λ h. omega arith;
  spent = λ e. cc;
  scheduled = λ e. refl;
  open_end = λ e. cc;
}

module _ {E : Type 0} (r : ReconnectConfig) where
  reconnect-IsCounted :
      (m : Manager) (round : Round E)
      → m.status ≡ looping
      → IsCounted r m
      → (pos 0 <ℤ r.max_attempts → pos m.attempt <ℤ r.max_attempts)
      → IsCounted r (reconnect r m round)
  unfolding reconnect
  reconnect-IsCounted m round s h room =
      let b = with_jitter r round.jitter_ms (get_reconnect_backoff r (pos m.attempt)) in
      ground (arith, length-append m.backoffs (b ∷ []), schedule-snoc r m)

  after_stream-IsCounted :
      (m : Manager) (round : Round E)
      → m.status ≡ looping
      → IsCounted r m
      → IsCounted r (after_stream r m round)
  unfolding after_stream
  after_stream-IsCounted m round s h =
      ground
        (arith, reconnect-IsCounted m round, eq_of_parts (pos (length m.backoffs)) r.max_attempts)

  stream_result-IsCounted :
      (m : Manager) (round : Round E) (res : Option (Option StreamError))
      → m.status ≡ looping
      → IsCounted r m
      → res ≢ some none
      → IsCounted r (stream_result r m round res)
  unfolding stream_result
  stream_result-IsCounted m round none s h n = ground arith
  stream_result-IsCounted m round (some none) s h n = absurd (n refl)
  stream_result-IsCounted m round (some (some e)) s h n = after_stream-IsCounted _ round s (record {
    counted = h.counted;
    limited = h.limited;
    spent = h.spent;
    scheduled = h.scheduled;
    open_end = h.open_end;
  })

  run_round-IsCounted :
      (m : Manager) (round : Round E)
      → m.status ≡ looping
      → IsCounted r m
      → IsCounted r (run_round r m round)
  unfolding run_round
  run_round-IsCounted m round s h = ground (
    arith,
    stream_result-IsCounted m round (read_events round.opens round.turns).returned s h
        (read_events-IsAccounted round.opens round.turns).not_nil,
    after_stream-IsCounted m round s h,
  )

  run-IsCounted :
      (m : Manager) (rounds : List (Round E))
      → IsCounted r m
      → IsCounted r (run_with_reconnect r m rounds)
  unfolding run_with_reconnect
  run-IsCounted m [] h = h
  run-IsCounted m (round ∷ rounds) h =
      let next : IsCounted r (if is_looping m.status then run_round r m round else m) =
        ground (arith, run_round-IsCounted m round) in
      run-IsCounted (if is_looping m.status then run_round r m round else m) rounds next

  -- Whatever happens in its rounds, a new manager with a positive limit never reconnects more often
  -- than the limit says and gives up only when it has reconnected exactly so often; without a
  -- positive limit it never gives up; it never takes the exit for a stream that closed normally;
  -- and without jitter its waits are the backoffs of attempts 0, 1, 2 and so on, each once.
  pub run_with_reconnect-schedule :
      (rounds : List (Round E))
      → let m = run_with_reconnect r new_manager rounds in
        ((r.max_attempts ≤ℤ pos 0) ⊎ (pos (length m.backoffs) ≤ℤ r.max_attempts))
        × ((m.status ≢ exhausted)
            ⊎ ((pos 0 <ℤ r.max_attempts) × (pos (length m.backoffs) ≡ r.max_attempts)))
        × ((r.jitter ≡ true) ⊎ (m.backoffs ≡ schedule r (length m.backoffs)))
        × (m.status ≢ closed_normally)
  run_with_reconnect-schedule rounds =
      let h = run-IsCounted new_manager rounds (new_manager-IsCounted r) in
      (ground (arith, h.limited), ground (arith, h.spent), ground (arith, h.scheduled), h.open_end)
