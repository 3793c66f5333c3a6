-- ===== src/Prelude/Decimal.antt =====
-- fmt.Sprintf("%d", n) and hex.EncodeToString.
use Prim.Native.Nat.{ℕ, zero, suc, ◌+◌, ◌-◌, ◌/◌, ◌%◌, ◌*◌, ◌≤◌, ◌<◌}
use mathlib.Core.Path.{◌≡◌, refl}
use mathlib.Core.List.{[], ◌∷◌, ◌++◌}
use mathlib.Core.Logic.{◌⊎◌}
use native.Mathlib.Omega.{arith}
use tetragon_kafka_adapter.Prelude.Tests.{ltb, if◌then◌else◌}
use tetragon_kafka_adapter.Prelude.Strings.{Text}
use tetragon_kafka_adapter.Prelude.Int.{ℤ, pos, negsuc}
use tetragon_kafka_adapter.Prelude.Lists.{length}
use tetragon_kafka_adapter.Prelude.Every.{All}

-- The digits of `n`, with fuel for as many as the first number says.
unfoldable pub decimal_digits : ℕ → ℕ → Text
decimal_digits zero n = []
decimal_digits (suc f) n =
    let front = decimal_digits f (n / 10) in
    if ltb n 10 then (b'0' + n) ∷ [] else front ++ (b'0' + n % 10) ∷ []

-- A number below 2 ^ 64 has at most 20 digits.
unfoldable pub decimal : ℕ → Text
unfolding decimal_digits
decimal n = decimal_digits 20 n

unfoldable pub decimal_ℤ : ℤ → Text
unfolding decimal
decimal_ℤ (pos n) = decimal n
decimal_ℤ (negsuc n) = b'-' ∷ decimal (suc n)

abbrev hex_digit : ℕ → ℕ
hex_digit d = if ltb d 10 then b'0' + d else b'a' + (d - 10)

unfoldable pub hex : Text → Text
hex [] = []
hex (c ∷ s) = hex_digit (c / 16) ∷ hex_digit (c % 16) ∷ hex s

pub length-hex : (s : Text) → length (hex s) ≡ 2 * length s
unfolding hex
length-hex [] = refl
length-hex (c ∷ s) = omega (arith, length-hex s)

-- One of 0-9 and a-f.
abbrev pub IsHexDigit : ℕ → Type 0
IsHexDigit c = ((b'0' ≤ c) × (c ≤ b'9')) ⊎ ((b'a' ≤ c) × (c ≤ b'f'))

hex_digit-IsHexDigit : (d : ℕ) → d < 16 → IsHexDigit (hex_digit d)
hex_digit-IsHexDigit d h = ground arith

pub hex-IsHexDigit : (s : Text) → All (λ c. c < 256) s → All IsHexDigit (hex s)
unfolding hex
hex-IsHexDigit [] h = tt
hex-IsHexDigit (c ∷ s) h = (
  hex_digit-IsHexDigit (c / 16) (omega (arith, h.0)),
  (hex_digit-IsHexDigit (c % 16) (omega arith), hex-IsHexDigit s h.1),
)
