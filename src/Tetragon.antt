-- ===== src/Tetragon.antt =====
-- What the code reads of a Tetragon event. The messages are generated in another repository
-- (github.com/cilium/tetragon/api), so the types and their getters are a parameter of the model; a
-- getter that may return nil gives an Option.
use tetragon_kafka_adapter.Prelude.{ℕ, ℤ, Bool, true, false, Option, none, some, Text}

-- One of the process messages, with its `Process` and `GetParent()`.
pub record Envelope {ℓ} (P : Type ℓ) : Type ℓ where
  pub process : Option P
  pub parent : Option P

pub record TetragonApi : Type 1 where
  pub Event : Type 0
  pub Process : Type 0
  pub Pod : Type 0
  pub get_process_exec : Event → Option (Envelope Process)
  pub get_process_exit : Event → Option (Envelope Process)
  pub get_process_kprobe : Event → Option (Envelope Process)
  pub get_process_tracepoint : Event → Option (Envelope Process)
  -- `GetTest() != nil`.
  pub has_test : Event → Bool
  pub get_node_name : Event → Text
  -- `GetTime().AsTime().UnixNano()`.
  pub get_time : Event → Option ℤ
  -- `GetPid().GetValue()`.
  pub get_pid : Process → Option ℕ
  pub get_binary : Process → Text
  pub get_pod : Process → Option Pod
  pub get_namespace : Pod → Text
  pub get_name : Pod → Text
  -- `GetContainer().GetName()`.
  pub get_container : Pod → Option Text

-- `x != nil`.
abbrev pub is_some {ℓ} : {A : Type ℓ} → Option A → Bool
is_some none = false
is_some (some a) = true
