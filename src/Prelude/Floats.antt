-- ===== src/Prelude/Floats.antt =====
-- float64 by its IEEE 754 bit pattern, a number below 2 ^ 64, with the comparisons of Go.
use Prim.Native.Nat.{ℕ, ◌-◌, ◌%◌, ◌^◌}
use mathlib.Core.Bool.{Bool, ◌&&◌, not}
use tetragon_kafka_adapter.Prelude.Tests.{ltb, ◌==◌, if◌then◌else◌}
use tetragon_kafka_adapter.Prelude.Int.{ℤ, pos, negsuc, ltb_ℤ, leb_ℤ}

pub record Float64 : Type 0 where
  pub bits : ℕ

abbrev pub is_nan : Float64 → Bool
is_nan x = ltb 0x7FF0000000000000 (x.bits % 2 ^ 63)

-- Patterns other than NaN are ordered as sign and magnitude; -0 equals 0.
abbrev pub rank : Float64 → ℤ
rank x =
    if ltb x.bits (2 ^ 63)
    then pos x.bits
    else if x.bits - 2 ^ 63 == 0
    then pos 0
    else negsuc (x.bits - 2 ^ 63 - 1)

-- `x < y` and `x <= y`, both false at a NaN.
unfoldable pub ltb_f : Float64 → Float64 → Bool
ltb_f x y = not (is_nan x) && (not (is_nan y) && ltb_ℤ (rank x) (rank y))

unfoldable pub leb_f : Float64 → Float64 → Bool
leb_f x y = not (is_nan x) && (not (is_nan y) && leb_ℤ (rank x) (rank y))

abbrev pub zero_f : Float64
zero_f = record { bits = 0 }

abbrev pub one_f : Float64
one_f = record { bits = 0x3FF0000000000000 }
