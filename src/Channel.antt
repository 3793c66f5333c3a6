-- ===== src/Channel.antt =====
-- Go's buffered channels: the values waiting, oldest first.
use tetragon_kafka_adapter.Prelude.{
  ℕ, ◌≤◌, ◌≡◌, Bool, true, false, List, [], ◌∷◌, ◌++◌, Option, none, some, ltb, length, arith,
  length-append,
}

pub record Channel {ℓ} (A : Type ℓ) : Type ℓ where
  pub capacity : ℕ
  pub items : List A
  pub closed : Bool

module _ {ℓ} {A : Type ℓ} where
  -- `make(chan A, n)`.
  abbrev pub make : ℕ → Channel A
  make n = record { capacity = n; items = []; closed = false }

  -- Whether a send can proceed at once.
  abbrev pub has_room : Channel A → Bool
  has_room c = ltb (length c.items) c.capacity

  abbrev pub put : Channel A → A → Channel A
  put c a = record c { items = c.items ++ a ∷ [] }

  -- Whether a receive can proceed with a value, and with which.
  abbrev pub first : List A → Option (A × List A)
  first [] = none
  first (a ∷ r) = some (a, r)

  -- No more values wait than the buffer holds.
  abbrev pub Fits : Channel A → Type 0
  Fits c = length c.items ≤ c.capacity

  pub put-Fits : (c : Channel A) (a : A) → has_room c ≡ true → Fits (put c a)
  put-Fits c a h = ground (arith, length-append c.items (a ∷ []))
