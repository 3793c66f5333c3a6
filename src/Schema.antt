-- ===== src/Schema.antt =====
-- internal/schema/v1/schema.go. The clock's format (time.RFC3339Nano in UTC) is the argument
-- `rfc3339`, from nanoseconds to text; `random` are the 16 bytes that rand.Read gives.
use tetragon_kafka_adapter.Prelude.{
  ℕ, ℤ, pos, Bool, List, [], Option, none, Text, ltb_ℤ, hex, length, length-hex, if◌then◌else◌, ◌≡◌,
  arith,
}

pub record RawMeta : Type 0 where
  pub format : Text
  pub size_bytes : ℕ
  pub hash : Text
  pub redacted : Bool

pub record K8sInfo : Type 0 where
  pub namespace : Text
  pub pod : Text
  pub container : Text

pub record NetworkInfo : Type 0 where
  pub source_ip : Text
  pub source_port : ℕ
  pub destination_ip : Text
  pub destination_port : ℕ
  pub protocol : Text
  pub family : Text

pub record ProcessInfo : Type 0 where
  pub pid : ℕ
  pub ppid : ℕ
  pub uid : ℕ
  pub gid : ℕ
  pub binary : Text
  pub args : List Text
  pub cwd : Text

-- Of the map `Extra`, to which nothing is ever added, only the keys.
pub record EventSchema : Type 0 where
  pub schema_version : ℕ
  pub type : Text
  pub timestamp : Text
  pub trace_id : Text
  pub node : Text
  pub raw : Text
  pub raw_meta : Option RawMeta
  pub k8s : Option K8sInfo
  pub process : Option ProcessInfo
  pub network : Option NetworkInfo
  pub labels : List (Text × Text)
  pub extra : List Text

unfoldable pub generate_trace_id : (random : Text) → Text
generate_trace_id random = hex random

unfoldable pub new_event_schema :
    (rfc3339 : ℤ → Text) (now : ℤ) (random : Text) → Text → EventSchema
new_event_schema rfc3339 now random event_type = record {
  schema_version = 1;
  type = event_type;
  timestamp = rfc3339 now;
  trace_id = generate_trace_id random;
  node = [];
  raw = [];
  raw_meta = none;
  k8s = none;
  process = none;
  network = none;
  labels = [];
  extra = [];
}

unfoldable pub set_timestamp : (rfc3339 : ℤ → Text) → EventSchema → ℤ → EventSchema
set_timestamp rfc3339 e ts = if ltb_ℤ (pos 0) ts then record e { timestamp = rfc3339 ts } else e

pub length-generate_trace_id :
    (random : Text) → length random ≡ 16 → length (generate_trace_id random) ≡ 32
unfolding generate_trace_id
length-generate_trace_id random h = omega (arith, length-hex random)
