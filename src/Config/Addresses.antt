-- ===== src/Config/Addresses.antt =====
-- The tests of broker and gRPC addresses in internal/config/validator.go.
use tetragon_kafka_adapter.Prelude.{
  ℕ, ◌≤◌, ◌≡◌, refl, ◌≢◌, ◌↔◌, List, [], ◌∷◌, none, Text, pos, negsuc, arith,
}
use tetragon_kafka_adapter.Config.Valid.{IsAddress}
use tetragon_kafka_adapter.Prelude.Every.{All}
use tetragon_kafka_adapter.Config.Address.{
  Split, split_ok, split_err, Atoi, atoi_ok, atoi_err, split_host_port, atoi,
}
use tetragon_kafka_adapter.Config.Validator.{
  check_port, check_parts, check_address, check_broker, check_brokers, check_grpc_addr,
}

abbrev IsPortNumber : Atoi → Type 0
IsPortNumber a = (n : ℕ) × (a ≡ atoi_ok (pos n)) × (1 ≤ n) × (n ≤ 65535)

check_port→IsPortNumber : (a : Atoi) → check_port a ≡ none → IsPortNumber a
unfolding check_port
check_port→IsPortNumber (atoi_ok (pos n)) h = (n, refl, ground arith, ground arith)
check_port→IsPortNumber (atoi_ok (negsuc n)) h = ground arith
check_port→IsPortNumber (atoi_err e) h = ground arith

IsPortNumber→check_port : (a : Atoi) → IsPortNumber a → check_port a ≡ none
unfolding check_port
IsPortNumber→check_port a (n, e, lo, hi) = rw e (ground arith)

abbrev IsParts : Split → Type 0
IsParts s =
    (host port : Text) × (n : ℕ) × (s ≡ split_ok host port)
    × (host ≢ [])
    × (atoi port ≡ atoi_ok (pos n))
    × (1 ≤ n)
    × (n ≤ 65535)

check_parts→IsParts : (s : Split) → check_parts s ≡ none → IsParts s
unfolding check_parts
check_parts→IsParts (split_ok [] port) h = ground arith
check_parts→IsParts (split_ok (x ∷ host) []) h = ground arith
check_parts→IsParts (split_ok (x ∷ host) (y ∷ port)) h =
    let (n, e, lo, hi) = check_port→IsPortNumber (atoi (y ∷ port)) h in
    (x ∷ host, y ∷ port, n, refl, (λ e'. cc), e, lo, hi)
check_parts→IsParts (split_err e) h = ground arith

atoi-nil : (n : ℕ) → atoi [] ≢ atoi_ok (pos n)
unfolding atoi
atoi-nil n h = cc

accepted :
    (host port : Text) (n : ℕ)
    → host ≢ []
    → atoi port ≡ atoi_ok (pos n)
    → 1 ≤ n
    → n ≤ 65535
    → check_parts (split_ok host port) ≡ none
unfolding check_parts
accepted [] port n h e lo hi = absurd (h refl)
accepted (x ∷ host) [] n h e lo hi = absurd (atoi-nil n e)
accepted (x ∷ host) (y ∷ port) n h e lo hi =
    IsPortNumber→check_port (atoi (y ∷ port)) (n, e, lo, hi)

pub check_address_iff : (s : Text) → (check_address s ≡ none) ↔ IsAddress s
unfolding check_address
check_address_iff s = (
  check_parts→IsParts (split_host_port s),
  λ (host, port, n, e, h, p, lo, hi). rw e (accepted host port n h p lo hi),
)

IsAddress-nil : ¬ IsAddress []
unfolding split_host_port
IsAddress-nil v = ground arith

pub check_broker_iff : (b : Text) → (check_broker b ≡ none) ↔ IsAddress b
unfolding check_broker
check_broker_iff [] = ((λ h. ground arith), λ v. absurd (IsAddress-nil v))
check_broker_iff (c ∷ b) = (
  (λ h. (check_address_iff (c ∷ b)).0 (ground arith)),
  λ v. let e = (check_address_iff (c ∷ b)).1 v in ground arith,
)

pub check_brokers_iff : (bs : List Text) → (check_brokers bs ≡ none) ↔ All IsAddress bs
unfolding check_brokers
check_brokers_iff [] = ((λ h. tt), λ v. refl)
check_brokers_iff (b ∷ bs) = (
  (λ h. ((check_broker_iff b).0 (ground arith), (check_brokers_iff bs).0 (ground arith))),
  λ v. let e = (check_broker_iff b).1 v.0 in let es = (check_brokers_iff bs).1 v.1 in ground arith,
)

pub check_grpc_addr_iff : (a : Text) → a ≢ [] → (check_grpc_addr a ≡ none) ↔ IsAddress a
unfolding check_grpc_addr
check_grpc_addr_iff [] h = absurd (h refl)
check_grpc_addr_iff (c ∷ a) h = (
  (λ e. (check_address_iff (c ∷ a)).0 (ground arith)),
  λ v. let e = (check_address_iff (c ∷ a)).1 v in ground arith,
)

pub IsAddress-ne-nil : (a : Text) → IsAddress a → a ≢ []
IsAddress-ne-nil a v e = IsAddress-nil (rw e at v)
