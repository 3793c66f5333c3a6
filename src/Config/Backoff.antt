-- ===== src/Config/Backoff.antt =====
-- GetReconnectBackoff of internal/config/config.go. A time.Duration is an int64 number of
-- nanoseconds, kept as its 64-bit word; products wrap as Go's do, and comparisons are signed.
pub mod Growth
use tetragon_kafka_adapter.Prelude.{
  ℕ, zero, suc, ◌*◌, ◌%◌, ◌^◌, ℤ, signed, word, ltb_ℤ, leb_ℤ, pos, if◌then◌else◌,
}
use tetragon_kafka_adapter.Config.{ReconnectConfig}

-- time.Duration(n) * time.Second.
unfoldable pub seconds : ℤ → ℕ
seconds n = word n * 1000000000 % 2 ^ 64

-- `for i := 0; i < attempt; i++ { backoff *= 2 }`.
unfoldable pub doublings : ℕ → ℕ → ℕ
doublings zero backoff = backoff
doublings (suc attempt) backoff = doublings attempt (backoff * 2 % 2 ^ 64)

abbrev rounds : ℤ → ℕ
rounds (pos n) = n
rounds _ = 0

unfoldable pub get_reconnect_backoff : ReconnectConfig → ℤ → ℕ
get_reconnect_backoff r attempt =
    let backoff = doublings (rounds attempt) (seconds r.initial_backoff_seconds) in
    let limit = seconds r.max_backoff_seconds in
    if ltb_ℤ (signed limit) (signed backoff) then limit else backoff
