-- ===== src/Config/Backoff/Growth.antt =====
-- The growth of GetReconnectBackoff of internal/config/config.go over the attempts.
use native.Mathlib.Nat.{
  div-add-mod, add-mul-mod_self_left, mod-eq_of_lt, mul-mod_left, mul-le-mul, pow-suc, zero-add,
  suc-add,
}
use mathlib.Core.Path.{subst}
use tetragon_kafka_adapter.Prelude.{
  pos_part, negsuc, ◌≤ℤ◌, ℕ, zero, suc, ◌+◌, ◌-◌, ◌*◌, ◌/◌, ◌%◌, ◌^◌, ◌≤◌, ◌<◌, min, ◌≡◌, refl, ◌∙◌,
  sym, ap, ℤ, pos, arith,
}
use tetragon_kafka_adapter.Config.{ReconnectConfig}
use tetragon_kafka_adapter.Config.Valid.{IsValidReconnect}
use tetragon_kafka_adapter.Config.Backoff.{seconds, doublings, get_reconnect_backoff}

one-le-pow : (n : ℕ) → 1 ≤ 2 ^ n
one-le-pow zero = omega arith
one-le-pow (suc n) = omega (arith, one-le-pow n)

mul-mod-mul : (m t : ℕ) → (m % 2 ^ 64) * t % 2 ^ 64 ≡ m * t % 2 ^ 64
mul-mod-mul m t = sym (
    ap (λ x. x % 2 ^ 64) split ∙ add-mul-mod_self_left ((m % 2 ^ 64) * t) (2 ^ 64) (m / 2 ^ 64 * t))
  where
    split : m * t ≡ (m % 2 ^ 64) * t + 2 ^ 64 * (m / 2 ^ 64 * t)
    split = grind (arith, ap (λ (x : ℕ). x * t) (div-add-mod m (2 ^ 64)))

-- The loop multiplies by a power of two, modulo 2 ^ 64.
pub doublings_mod : (n b : ℕ) → b < 2 ^ 64 → doublings n b ≡ b * 2 ^ n % 2 ^ 64
unfolding doublings
doublings_mod zero b h = omega arith
doublings_mod (suc n) b h =
    doublings_mod n (b * 2 % 2 ^ 64) (omega arith)
    ∙ mul-mod-mul (b * 2) (2 ^ n)
    ∙ ap (λ x. x % 2 ^ 64) same
  where
    same : b * 2 * 2 ^ n ≡ b * 2 ^ suc n
    same = rw (pow-suc 2 n) (omega arith)

pow_mono : (k n : ℕ) → 2 ^ n ≤ 2 ^ (k + n)
pow_mono zero n = rw (zero-add n) (omega arith)
pow_mono (suc k) n = rw (suc-add k n, pow-suc 2 (k + n)) (omega (arith, pow_mono k n))

pow-add : (k n : ℕ) → 2 ^ (k + n) ≡ 2 ^ k * 2 ^ n
pow-add zero n = rw (zero-add n) (omega arith)
pow-add (suc k) n = rw (suc-add k n, pow-suc 2 (k + n), pow-suc 2 k, pow-add k n) (omega arith)

sub-add : (n : ℕ) → n ≤ 21 → 21 - n + n ≡ 21
sub-add n h = omega arith

pow-le_21 : (n : ℕ) → n ≤ 21 → 2 ^ n ≤ 2 ^ 21
pow-le_21 n h = subst (λ x. 2 ^ n ≤ 2 ^ x) (sub-add n h) (pow_mono (21 - n) n)

-- The nanoseconds of a valid backoff do not wrap.
seconds_exact : (n : ℕ) → n ≤ 3600 → seconds (pos n) ≡ n * 1000000000
unfolding seconds
seconds_exact n h = omega arith

product_bound : (i t : ℕ) → i ≤ 3600 → t ≤ 2 ^ 21 → i * 1000000000 * t < 2 ^ 63
product_bound i t h k = let p : i * t ≤ 3600 * 2 ^ 21 = mul-le-mul h k in omega arith

grown :
    (i n : ℕ)
    → i ≤ 3600
    → n ≤ 21
    → (doublings n (seconds (pos i)) ≡ i * 1000000000 * 2 ^ n) × (i * 1000000000 * 2 ^ n < 2 ^ 63)
grown i n h l =
    let bound = product_bound i (2 ^ n) h (pow-le_21 n l) in
    (
      rw (seconds_exact i h)
          (doublings_mod n (i * 1000000000) (omega arith) ∙ mod-eq_of_lt (omega arith)),
      bound,
    )

backoff_small :
    (r : ReconnectConfig) (i m n : ℕ)
    → r.initial_backoff_seconds ≡ pos i
    → r.max_backoff_seconds ≡ pos m
    → i ≤ 3600
    → m ≤ 3600
    → n ≤ 21
    → get_reconnect_backoff r (pos n) ≡ min (i * 2 ^ n) m * 1000000000
unfolding get_reconnect_backoff
backoff_small r i m n ei em hi hm hn =
    let g = grown i n hi hn in
    let lim = seconds_exact m hm in rw (ei, em, lim, g.0) (ground (arith, g.1))

abbrev WithinHour : ℤ → Type 0
WithinHour z = (z ≡ pos (pos_part z)) × (pos_part z ≤ 3600)

within_hour : (z : ℤ) → pos 1 ≤ℤ z → z ≤ℤ pos 3600 → WithinHour z
within_hour (pos n) l h = (refl, omega arith)
within_hour (negsuc n) l h = absurd (omega arith)

valid_hours :
    (r : ReconnectConfig)
    → IsValidReconnect r
    → WithinHour r.initial_backoff_seconds × WithinHour r.max_backoff_seconds
valid_hours r v =
    (within_hour _ (omega arith) (omega arith), within_hour _ (omega arith) (omega arith))

-- In a valid configuration the first 22 waits double from the initial backoff up to the maximum,
-- to the nanosecond: min(initial * 2^attempt, max) seconds.
pub get_reconnect_backoff_exact :
    (r : ReconnectConfig) (n : ℕ)
    → IsValidReconnect r
    → n ≤ 21
    → get_reconnect_backoff r (pos n)
      ≡ min (pos_part r.initial_backoff_seconds * 2 ^ n) (pos_part r.max_backoff_seconds)
        * 1000000000
get_reconnect_backoff_exact r n v h =
    let (init, max) = valid_hours r v in backoff_small r _ _ n init.0 max.0 init.1 max.1 h

add-sub : (n : ℕ) → 55 ≤ n → 55 + (n - 55) ≡ n
add-sub n h = omega arith

wrapped : (i k : ℕ) → i ≤ 3600 → doublings (55 + k) (seconds (pos i)) ≡ 0
wrapped i k h = rw (seconds_exact i h) (
    doublings_mod (55 + k) (i * 1000000000) (omega arith)
    ∙ rw (pow-add 55 k, factor) (mul-mod_left _ (2 ^ 64)))
  where
    factor : i * 1000000000 * (2 ^ 55 * 2 ^ k) ≡ i * 1953125 * 2 ^ k * 2 ^ 64
    factor = omega arith

-- In a valid configuration the backoff is 0 from attempt 55 on, whatever the maximum: the doubled
-- int64 has wrapped.
pub get_reconnect_backoff_wraps :
    (r : ReconnectConfig) (n : ℕ)
    → IsValidReconnect r
    → 55 ≤ n
    → get_reconnect_backoff r (pos n) ≡ 0
unfolding get_reconnect_backoff
get_reconnect_backoff_wraps r n v h =
    let (init, max) = valid_hours r v in
    let gone : doublings n (seconds (pos (pos_part r.initial_backoff_seconds))) ≡ 0 =
      subst (λ x. doublings x (seconds (pos (pos_part r.initial_backoff_seconds))) ≡ 0)
        (add-sub n h) (wrapped _ (n - 55) init.1) in
    let lim = seconds_exact _ max.1 in rw (init.0, max.0, gone, lim) (ground arith)
