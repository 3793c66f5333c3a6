-- ===== src/Pipeline/Transform.antt =====
-- shouldLogDataTransform of cmd/consumer/main.go: which events have their transformation logged. The
-- runes of a trace id that is not ASCII are the argument `runes`; the ids that the code makes are
-- ASCII digits.
pub mod Ratios
use tetragon_kafka_adapter.Prelude.{
  ℕ, zero, suc, ◌+◌, ◌-◌, ◌*◌, ◌/◌, ◌%◌, ◌^◌, Bool, true, false, List, [], ◌∷◌, Text, Float64,
  zero_f, one_f, ltb_f, leb_f, is_ascii, ltb, ◌==◌, if◌then◌else◌,
}

-- `hash` as a 64-bit word.
unfoldable pub hash_from : ℕ → List ℕ → ℕ
hash_from hash [] = hash
hash_from hash (c ∷ cs) = hash_from ((hash * 31 + c) % 2 ^ 64) cs

abbrev round_half_even : (quotient rest divisor : ℕ) → ℕ
round_half_even q r b = if ltb b (2 * r) then q + 1 else if ltb (2 * r) b then q else q + q % 2

-- float64(a) / float64(b) for 0 < a <= b < 2 ^ 53: the shift k is raised until the quotient has 53
-- bits, and the quotient is rounded to even. The quotient is at least 2 ^ -53, so 54 shifts are enough.
unfoldable pub divided : (fuel k a b : ℕ) → Float64
divided zero k a b = zero_f
divided (suc fuel) k a b =
    let again = divided fuel (suc k) a b in
    let q = a * 2 ^ k / b in
    if ltb q (2 ^ 52)
    then again
    else record { bits = (1075 - k) * 2 ^ 52 + (round_half_even q (a * 2 ^ k % b) b - 2 ^ 52) }

abbrev mask : ℕ
mask = 0x7FFFFFFF

unfoldable pub normalized : ℕ → Float64
normalized hash = let a = hash % 2 ^ 31 in if a == 0 then zero_f else divided 54 52 a mask

module _ (runes : Text → List ℕ) where
  abbrev code_points : Text → List ℕ
  code_points s = if is_ascii s then s else runes s

  unfoldable pub should_log_data_transform : (trace_id : Text) (sample_ratio : Float64) → Bool
  should_log_data_transform trace_id sample_ratio =
      if leb_f sample_ratio zero_f
      then false
      else if leb_f one_f sample_ratio
      then true
      else ltb_f (normalized (hash_from 0 (code_points trace_id))) sample_ratio
