-- ===== src/Prelude/Bags.antt =====
-- Lists up to the order of their elements: a bag, in which only how often each occurs counts.
use Prim.Native.Nat.{ℕ, suc, ◌+◌}
use mathlib.Core.Path.{◌≡◌}
use mathlib.Core.Bool.{Bool}
use mathlib.Core.List.{List, [], ◌∷◌, ◌++◌}
use mathlib.Core.Quot
use mathlib.Core.Quot.{Quot}
use native.Mathlib.Omega.{arith}
use tetragon_kafka_adapter.Prelude.Tests.{if◌then◌else◌}

-- How many elements pass a test: lists with equal counts for every test hold the same elements.
unfoldable pub count {ℓ} : {A : Type ℓ} → (A → Bool) → List A → ℕ
count p [] = 0
count p (x ∷ xs) = let rest = count p xs in if p x then suc rest else rest

pub count-append {ℓ} :
    {A : Type ℓ} (p : A → Bool) (xs ys : List A) → count p (xs ++ ys) ≡ count p xs + count p ys
unfolding count
count-append p [] ys = omega arith
count-append p (x ∷ xs) ys = ground (arith, count-append p xs ys)

abbrev pub SameItems {ℓ} : {A : Type ℓ} → List A → List A → Type ℓ
SameItems {A} xs ys = (p : A → Bool) → count p xs ≡ count p ys

abbrev pub Bag {ℓ} : Type ℓ → Type ℓ
Bag A = Quot (SameItems {A = A})

abbrev pub bag {ℓ} : {A : Type ℓ} → List A → Bag A
bag xs = Quot.mk xs

pub bag-eq {ℓ} : {A : Type ℓ} (xs ys : List A) → SameItems xs ys → bag xs ≡ bag ys
bag-eq xs ys h = Quot.sound h
