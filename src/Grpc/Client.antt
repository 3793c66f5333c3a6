-- ===== src/Grpc/Client.antt =====
-- internal/grpc/client.go. Files, certificates and the network are what the caller's environment
-- says of them; the connection itself belongs to google.golang.org/grpc and is not modelled.
pub mod Tls
use tetragon_kafka_adapter.Prelude.{
  Bool, true, false, ◌||◌, List, [], ◌∷◌, Option, none, some, Text, is_empty, if◌then◌else◌,
}
use tetragon_kafka_adapter.Config.{TlsConfig, TetragonConfig}

pub data ClientError : Type 0 where
  read_failed : Text → ClientError
  bad_pem : Text → ClientError
  key_pair_failed dial_failed : ClientError

pub data Result {ℓ} (A : Type ℓ) : Type ℓ where
  ok : A → Result A
  err : ClientError → Result A

infixl 5 ◌>>=◌
abbrev pub ◌>>=◌ {ℓ κ} : {A : Type ℓ} {B : Type κ} → Result A → (A → Result B) → Result B
ok a >>= f = f a
err e >>= f = err e

abbrev or_fail {ℓ} : {A : Type ℓ} → ClientError → Option A → Result A
or_fail e none = err e
or_fail e (some a) = ok a

-- os.ReadFile, AppendCertsFromPEM, tls.LoadX509KeyPair (certificate file, then key file), and
-- whether grpc.DialContext succeeds.
pub record Environment : Type 0 where
  pub read_file : Text → Option Text
  pub is_pem : Text → Bool
  pub load_key_pair : Text → Text → Option Text
  pub dials : Bool

pub record TlsSettings : Type 0 where
  pub root_cas : Option Text
  pub certificates : List Text

abbrev parsed : Environment → Text → Text → Result (Option Text)
parsed env file pem = if env.is_pem pem then ok (some pem) else err (bad_pem file)

load_ca : Environment → Text → Result (Option Text)
load_ca env file =
    if is_empty file
    then ok none
    else (do pem ← or_fail (read_failed file) (env.read_file file); parsed env file pem)

load_pair : Environment → TlsConfig → Result (List Text)
load_pair env cfg = if is_empty cfg.client_cert || is_empty cfg.client_key then ok [] else (do
  cert ← or_fail key_pair_failed (env.load_key_pair cfg.client_cert cfg.client_key)
  ok (cert ∷ []))

unfoldable pub load_tls_config : Environment → TlsConfig → Result TlsSettings
unfolding load_ca load_pair
load_tls_config env cfg = do
  ca ← load_ca env cfg.ca_cert
  certs ← load_pair env cfg
  ok (record { root_cas = ca; certificates = certs })

-- The transport: `none` is plain text.
pub record Client : Type 0 where
  pub address : Text
  pub transport : Option TlsSettings

abbrev transport_of : Environment → TlsConfig → Result (Option TlsSettings)
transport_of env cfg =
    if cfg.enabled then (do settings ← load_tls_config env cfg; ok (some settings)) else ok none

unfoldable pub new_client : Environment → TetragonConfig → Result Client
new_client env cfg = do
  transport ← transport_of env cfg.tls
  if env.dials
      then ok (record { address = cfg.grpc_addr; transport = transport })
      else err dial_failed
