-- ===== src/Prelude/Every.antt =====
-- Lists every element of which has a property.
use mathlib.Core.Path.{◌≡◌}
use Prim.Native.Nat.{ℕ, zero, suc}
use mathlib.Core.List.{List, [], ◌∷◌, ◌++◌}
use mathlib.Core.Option.{some}
use tetragon_kafka_adapter.Prelude.Lists.{get_elem?, set, replicate}

-- By recursion, so that the tactics read and build the tuples.
abbrev pub All {ℓ κ} : {A : Type ℓ} → (A → Type κ) → List A → Type κ
All P [] = Unit
All P (x ∷ xs) = P x × All P xs

module _ {ℓ κ} {A : Type ℓ} (P : A → Type κ) where
  pub get-All : (xs : List A) (i : ℕ) (x : A) → All P xs → get_elem? xs i ≡ some x → P x
  get-All [] i x h e = cc
  get-All (y ∷ ys) zero x h e = let same : y ≡ x = cc in rw same at h.0
  get-All (y ∷ ys) (suc i) x h e = get-All ys i x h.1 e

  pub set-All : (xs : List A) (i : ℕ) (x : A) → All P xs → P x → All P (set xs i x)
  set-All [] i x h p = tt
  set-All (y ∷ ys) zero x h p = (p, h.1)
  set-All (y ∷ ys) (suc i) x h p = (h.0, set-All ys i x h.1 p)

  pub replicate-All : (n : ℕ) (x : A) → P x → All P (replicate n x)
  replicate-All zero x p = tt
  replicate-All (suc n) x p = (p, replicate-All n x p)

  pub append-All : (xs ys : List A) → All P xs → All P ys → All P (xs ++ ys)
  append-All [] ys h k = k
  append-All (x ∷ xs) ys h k = (h.0, append-All xs ys h.1 k)

  pub append-All_parts : (xs ys : List A) → All P (xs ++ ys) → All P xs × All P ys
  append-All_parts [] ys h = (tt, h)
  append-All_parts (x ∷ xs) ys h = let (l, r) = append-All_parts xs ys h.1 in ((h.0, l), r)

pub map-All {ℓ κ} :
    {A : Type ℓ} (P Q : A → Type κ) (xs : List A) → ((x : A) → P x → Q x) → All P xs → All Q xs
map-All P Q [] f h = tt
map-All P Q (x ∷ xs) f h = (f x h.0, map-All P Q xs f h.1)
