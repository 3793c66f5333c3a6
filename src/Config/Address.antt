-- ===== src/Config/Address.antt =====
-- The two functions of Go's standard library by which internal/config/validator.go reads an
-- address: net.SplitHostPort and strconv.Atoi.
pub mod RoundTrip
use tetragon_kafka_adapter.Prelude.{
  ℕ, zero, suc, ◌+◌, ◌-◌, ◌*◌, ◌^◌, Bool, true, false, ◌&&◌, [], ◌∷◌, Option, none, some, Text, ℤ,
  pos, negsuc, ltb, leb, ◌==◌, if◌then◌else◌, length, take, drop, get_or,
}

-- The position of the first and of the last byte `b`.
unfoldable pub index : ℕ → Text → Option ℕ
index b [] = none
index b (c ∷ s) =
    let rest = index b s in
    if c == b then some 0 else (elim rest [ none ↦ none | some i ↦ some (suc i) ])

unfoldable pub last_index : ℕ → Text → Option ℕ
last_index b [] = none
last_index b (c ∷ s) = elim (last_index b s) [
  | none ↦ if c == b then some 0 else none
  | some i ↦ some (suc i)
]

abbrev pub has : ℕ → Text → Bool
has b [] = false
has b (c ∷ s) = if c == b then true else has b s

pub data AddrError : Type 0 where
  missing_port too_many_colons missing_bracket unexpected_open unexpected_close : AddrError

pub data Split : Type 0 where
  split_ok : Text → Text → Split
  split_err : AddrError → Split

-- The last tests of SplitHostPort: `from_j` and `from_k` are what they still search.
abbrev finish : Text → Text → Text → Text → Split
finish host from_j from_k port =
    if has b'[' from_j
    then split_err unexpected_open
    else if has b']' from_k
    then split_err unexpected_close
    else split_ok host port

plain : Text → ℕ → Split
plain s i =
    let host = take i s in
    if has b':' host then split_err too_many_colons else finish host s s (drop (suc i) s)

bracketed : Text → ℕ → Split
bracketed s i = elim (index b']' s) [
  | none ↦ split_err missing_bracket
  | some end ↦
      if suc end == length s
      then split_err missing_port
      else if suc end == i
      then finish (take (end - 1) (drop 1 s)) (drop 1 s) (drop (suc end) s) (drop (suc i) s)
      else if get_or s (suc end) 0 == b':'
      then split_err too_many_colons
      else split_err missing_port
]

unfoldable pub split_host_port : Text → Split
unfolding plain bracketed index last_index
split_host_port s = elim (last_index b':' s) [
  | none ↦ split_err missing_port
  | some i ↦ if get_or s 0 0 == b'[' then bracketed s i else plain s i
]

pub data AtoiError : Type 0 where
  syntax range : AtoiError

pub data Atoi : Type 0 where
  atoi_ok : ℤ → Atoi
  atoi_err : AtoiError → Atoi

-- The value of decimal digits after those that gave `acc`.
digits_value : ℕ → Text → Option ℕ
digits_value acc [] = some acc
digits_value acc (c ∷ s) =
    let rest = digits_value (acc * 10 + (c - b'0')) s in
    if leb b'0' c && leb c b'9' then rest else none

abbrev number : Text → Option ℕ
unfolding digits_value
number [] = none
number (c ∷ s) = digits_value 0 (c ∷ s)

abbrev positive : Option ℕ → Atoi
positive none = atoi_err syntax
positive (some n) = if ltb n (2 ^ 63) then atoi_ok (pos n) else atoi_err range

abbrev negative : Option ℕ → Atoi
negative none = atoi_err syntax
negative (some zero) = atoi_ok (pos 0)
negative (some (suc n)) = if ltb n (2 ^ 63) then atoi_ok (negsuc n) else atoi_err range

unfoldable pub atoi : Text → Atoi
unfolding digits_value
atoi [] = atoi_err syntax
atoi (c ∷ s) =
    if c == b'-'
    then negative (number s)
    else if c == b'+'
    then positive (number s)
    else positive (number (c ∷ s))
