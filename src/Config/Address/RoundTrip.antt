-- ===== src/Config/Address/RoundTrip.antt =====
-- Addresses put together from a host and a port, read back as internal/config/validator.go does.
use native.Mathlib.Nat.{pow-suc}
use tetragon_kafka_adapter.Prelude.{
  ℕ, zero, suc, ◌+◌, ◌-◌, ◌*◌, ◌/◌, ◌%◌, ◌^◌, ◌≤◌, ◌<◌, ◌≡◌, refl, ◌≢◌, ◌∙◌, true, false, ◌&&◌, [],
  ◌∷◌, ◌++◌, Option, none, some, Text, pos, length, take, drop, get_or, decimal, decimal_digits,
  Bool-cases, lt→ltb, ltb→lt, inl, inr, ap, ltb, leb, ◌==◌, arith,
}
use tetragon_kafka_adapter.Config.Validator.{check_address}
use tetragon_kafka_adapter.Config.Addresses.{check_address_iff}
use tetragon_kafka_adapter.Config.Address.{
  last_index, has, split_ok, split_host_port, atoi, atoi_ok, digits_value, plain,
}

-- The digits.

abbrev next_value : Option ℕ → ℕ → Option ℕ
next_value none d = none
next_value (some v) d = some (v * 10 + d)

digits_value-snoc :
    (acc d : ℕ) (s : Text)
    → d < 10
    → digits_value acc (s ++ (b'0' + d) ∷ []) ≡ next_value (digits_value acc s) d
unfolding digits_value
digits_value-snoc acc d [] h = ground arith
digits_value-snoc acc d (c ∷ s) h = ground (arith, digits_value-snoc (acc * 10 + (c - b'0')) d s h)

one_digit : (n : ℕ) → n < 10 → digits_value 0 ((b'0' + n) ∷ []) ≡ some n
unfolding digits_value
one_digit n h = ground arith

div-lt : (n t : ℕ) → n < 10 * t → n / 10 < t
div-lt n t h = omega arith

last_digit :
    (front : Text) (n : ℕ)
    → digits_value 0 front ≡ some (n / 10)
    → digits_value 0 (front ++ (b'0' + n % 10) ∷ []) ≡ some n
last_digit front n h =
    digits_value-snoc 0 (n % 10) front (omega arith) ∙ rw h (ap some (omega arith))

digits_value-decimal_digits :
    (f n : ℕ) → n < 10 ^ suc f → digits_value 0 (decimal_digits (suc f) n) ≡ some n
unfolding decimal_digits
digits_value-decimal_digits zero n h =
    let small : ltb n 10 ≡ true = lt→ltb n 10 (omega arith) in rw small (one_digit n (omega arith))
digits_value-decimal_digits (suc f) n h = elim (Bool-cases (ltb n 10)) [
  | inl small ↦ rw small (one_digit n (ltb→lt n 10 small))
  | inr large ↦
      let below : n < 10 ^ suc f * 10 = rw (pow-suc 10 (suc f)) at h in
      rw large (
        last_digit (decimal_digits (suc f) (n / 10)) n
          (digits_value-decimal_digits f (n / 10) (div-lt n (10 ^ suc f) (omega (arith, below)))))
]

decimal_digits-ne-nil : (f n : ℕ) → decimal_digits (suc f) n ≢ []
unfolding decimal_digits
decimal_digits-ne-nil f n = elim (Bool-cases (ltb n 10)) [
  | inl small ↦ rw small (λ e. cc)
  | inr large ↦ rw large (append-ne-nil (decimal_digits f (n / 10)) (b'0' + n % 10))
]
  where
    append-ne-nil : (s : Text) (c : ℕ) → s ++ c ∷ [] ≢ []
    append-ne-nil [] c e = cc
    append-ne-nil (x ∷ s) c e = cc

-- A byte that is no digit does not stand among digits.
has-digits :
    (b acc v : ℕ) (s : Text)
    → leb b'0' b && leb b b'9' ≡ false
    → digits_value acc s ≡ some v
    → has b s ≡ false
unfolding digits_value
has-digits b acc v [] h e = refl
has-digits b acc v (c ∷ s) h e = ground (arith, has-digits b (acc * 10 + (c - b'0')) v s h)

atoi-digits :
    (s : Text) (n : ℕ) → digits_value 0 s ≡ some n → s ≢ [] → n < 2 ^ 63 → atoi s ≡ atoi_ok (pos n)
unfolding atoi digits_value
atoi-digits [] n e h l = absurd (h refl)
atoi-digits (c ∷ s) n e h l = ground arith

-- The two parts of the address.

has-append : (b : ℕ) (s t : Text) → has b s ≡ false → has b t ≡ false → has b (s ++ t) ≡ false
has-append b [] t h k = k
has-append b (c ∷ s) t h k = ground (arith, has-append b s t)

last_index-none : (b : ℕ) (s : Text) → has b s ≡ false → last_index b s ≡ none
unfolding last_index
last_index-none b [] h = refl
last_index-none b (c ∷ s) h = ground (arith, last_index-none b s)

last_index-append :
    (b : ℕ) (s t : Text) → has b t ≡ false → last_index b (s ++ b ∷ t) ≡ some (length s)
unfolding last_index
last_index-append b [] t h = ground (arith, last_index-none b t)
last_index-append b (c ∷ s) t h = ground (arith, last_index-append b s t h)

take-append : (s t : Text) → take (length s) (s ++ t) ≡ s
take-append [] t = refl
take-append (c ∷ s) t = cc (take-append s t)

drop-append : (s t : Text) (c : ℕ) → drop (suc (length s)) (s ++ c ∷ t) ≡ t
drop-append [] t c = refl
drop-append (x ∷ s) t c = drop-append s t c

first_byte : (s t : Text) (b : ℕ) → s ≢ [] → has b s ≡ false → (get_or (s ++ t) 0 0 == b) ≡ false
first_byte [] t b h k = absurd (h refl)
first_byte (c ∷ s) t b h k = ground arith

split-plain :
    (host port : Text)
    → host ≢ []
    → has b':' host ≡ false
    → has b'[' host ≡ false
    → has b']' host ≡ false
    → has b':' port ≡ false
    → has b'[' port ≡ false
    → has b']' port ≡ false
    → split_host_port (host ++ b':' ∷ port) ≡ split_ok host port
unfolding split_host_port plain
split-plain host port h c o e c' o' e' =
    rw
      (
        last_index-append b':' host port c',
        first_byte host (b':' ∷ port) b'[' h o,
        take-append host (b':' ∷ port),
        drop-append host port b':',
        c,
        split_host_port,
        has-append b'[' host (b':' ∷ port) o o',
        has-append b']' host (b':' ∷ port) e e',
      )
      refl

port_split :
    (host : Text) (n : ℕ)
    → host ≢ []
    → has b':' host ≡ false
    → has b'[' host ≡ false
    → has b']' host ≡ false
    → n ≤ 65535
    → (split_host_port (host ++ b':' ∷ decimal n) ≡ split_ok host (decimal n))
      × (atoi (decimal n) ≡ atoi_ok (pos n))
unfolding decimal
port_split host n h c o e l =
    let port = decimal_digits 20 n in
    let value : digits_value 0 port ≡ some n = digits_value-decimal_digits 19 n (omega arith) in
    (
      split-plain host port h c o e (has-digits b':' 0 n port refl value)
          (has-digits b'[' 0 n port refl value) (has-digits b']' 0 n port refl value),
      atoi-digits port n value (decimal_digits-ne-nil 19 n) (omega arith),
    )

-- The address made of a host and a port in 1..65535, the host neither empty nor with a colon or a
-- bracket, passes the validator's test, and is read back as that host and that port.
pub check_address-join :
    (host : Text) (n : ℕ)
    → host ≢ []
    → has b':' host ≡ false
    → has b'[' host ≡ false
    → has b']' host ≡ false
    → 1 ≤ n
    → n ≤ 65535
    → (check_address (host ++ b':' ∷ decimal n) ≡ none)
      × (split_host_port (host ++ b':' ∷ decimal n) ≡ split_ok host (decimal n))
      × (atoi (decimal n) ≡ atoi_ok (pos n))
check_address-join host n h c o e lo hi =
    let (parts, value) = port_split host n h c o e hi in
    (
      (check_address_iff (host ++ b':' ∷ decimal n)).1
          (host, decimal n, n, parts, h, value, lo, hi),
      parts,
      value,
    )
