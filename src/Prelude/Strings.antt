-- ===== src/Prelude/Strings.antt =====
-- Go strings: sequences of bytes. A literal of the source is written `str "…"`.
use Prim.Native.Nat.{ℕ, ◌+◌}
use Prim.Native.Char.{code}
use Prim.Native.String.{String}
use mathlib.Core.Path.{◌≡◌, refl}
use mathlib.Core.Logic.{◌≢◌, ◌↔◌, ◌⊎◌, inl, inr}
use mathlib.Core.Bool.{Bool, true, false, ◌&&◌}
use mathlib.Core.List.{List, [], ◌∷◌, map}
use mathlib.Core.Option.{Option, none, some}
use native.Mathlib.Omega.{arith}
use tetragon_kafka_adapter.Prelude.Tests.{ltb, leb, ◌==◌, if◌then◌else◌, Bool-cases}

abbrev pub Text : Type 0
Text = List ℕ

abbrev pub str : String → Text
str String.[] = []
str (String.◌∷◌ c s) = code c ∷ str s

-- `a == b` on strings.
unfoldable pub text_eq : Text → Text → Bool
text_eq [] [] = true
text_eq [] (b ∷ bs) = false
text_eq (a ∷ s) [] = false
text_eq (a ∷ s) (b ∷ t) = a == b && text_eq s t

pub text_eq_refl : (a : Text) → text_eq a a ≡ true
unfolding text_eq
text_eq_refl [] = refl
text_eq_refl (x ∷ xs) = ground (arith, text_eq_refl xs)

pub text_eq→eq : (a b : Text) → text_eq a b ≡ true → a ≡ b
unfolding text_eq
text_eq→eq [] [] h = refl
text_eq→eq [] (b ∷ bs) h = cc
text_eq→eq (a ∷ s) [] h = cc
text_eq→eq (a ∷ s) (b ∷ t) h = ground (arith, text_eq→eq s t)

pub text_eq_iff : (a b : Text) → (text_eq a b ≡ true) ↔ (a ≡ b)
text_eq_iff a b = (text_eq→eq a b, λ e. rw e (text_eq_refl b))

pub Text-cases : (a b : Text) → (a ≡ b) ⊎ (a ≢ b)
Text-cases a b = elim (Bool-cases (text_eq a b)) [
  | inl same ↦ inl (text_eq→eq a b same)
  | inr other ↦ inr (λ e. ground (arith, text_eq_iff a b))
]

-- `s == ""`.
abbrev pub is_empty : Text → Bool
is_empty [] = true
is_empty (c ∷ s) = false

-- `m[s]` for a `map[string]bool` literal that maps each of its keys to true.
unfoldable pub one_of : Text → List Text → Bool
one_of s [] = false
one_of s (k ∷ ks) = if text_eq s k then true else one_of s ks

-- The text is one of the keys.
abbrev pub AnyOf : Text → List Text → Type 0
AnyOf s [] = ⊥
AnyOf s (k ∷ []) = s ≡ k
AnyOf s (k ∷ j ∷ ks) = (s ≡ k) ⊎ AnyOf s (j ∷ ks)

pub one_of_iff : (s : Text) (ks : List Text) → (one_of s ks ≡ true) ↔ AnyOf s ks
unfolding one_of
one_of_iff s [] = ((λ h. cc), λ v. absurd v)
one_of_iff s (k ∷ []) =
    ((λ h. ground (arith, text_eq_iff s k)), λ v. ground (arith, text_eq_iff s k))
one_of_iff s (k ∷ j ∷ ks) = (
  (λ h. ground (arith, text_eq_iff s k, (one_of_iff s (j ∷ ks)).0)),
  λ v. ground (arith, text_eq_iff s k, (one_of_iff s (j ∷ ks)).1),
)

-- `topic, ok := m[key]`: a map as an association list, one entry for each key.
module _ {ℓ} {V : Type ℓ} where
  unfoldable pub get : Text → List (Text × V) → Option V
  get k [] = none
  get k ((j, v) ∷ m) = if text_eq j k then some v else get k m

-- strings.ToLower: ASCII text letter by letter, any other by the Unicode tables (`unicode`).
abbrev pub is_ascii : Text → Bool
is_ascii [] = true
is_ascii (c ∷ s) = ltb c 128 && is_ascii s

abbrev pub lower_byte : ℕ → ℕ
lower_byte c = if leb b'A' c && leb c b'Z' then c + 32 else c

unfoldable pub to_lower : (Text → Text) → Text → Text
to_lower unicode s = if is_ascii s then map lower_byte s else unicode s

-- strings.EqualFold: ASCII texts letter by letter, others by the Unicode tables (`fold`).
unfoldable pub equal_fold : (Text → Text → Bool) → Text → Text → Bool
equal_fold fold s t =
    if is_ascii s && is_ascii t then text_eq (map lower_byte s) (map lower_byte t) else fold s t

-- strings.Split(s, "."): the parts between the dots, at least one.
abbrev add_to_first : ℕ → List Text → List Text
add_to_first c [] = (c ∷ []) ∷ []
add_to_first c (p ∷ ps) = (c ∷ p) ∷ ps

unfoldable pub split_dot : Text → List Text
split_dot [] = [] ∷ []
split_dot (c ∷ s) = let rest = split_dot s in if c == b'.' then [] ∷ rest else add_to_first c rest
