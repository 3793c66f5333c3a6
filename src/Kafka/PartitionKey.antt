-- ===== src/Kafka/PartitionKey.antt =====
-- internal/kafka/partition_key.go.
pub mod Shape
use tetragon_kafka_adapter.Prelude.{
  ℕ, Bool, true, false, List, [], ◌∷◌, ◌++◌, Option, none, some, Text, str, is_empty, text_eq,
  split_dot, decimal, decimal_ℤ, length, take, ltb, if◌then◌else◌,
}
use tetragon_kafka_adapter.Tetragon.{TetragonApi, Envelope}
use tetragon_kafka_adapter.Config.{PartitionKeyConfig}
use tetragon_kafka_adapter.Router.{detect_event_type, get_event_node}

-- The first message that is there and has a process, with what `f` makes of it.
abbrev with_process {ℓ κ} :
    {P : Type ℓ} {B : Type κ} → Option (Envelope P) → (P → Option P → B) → B → B
with_process none f next = next
with_process (some m) f next = elim m.process [ none ↦ next | some p ↦ f p m.parent ]

module _ (api : TetragonApi) where
  open api use {
    Event, Process, Pod, get_process_exec, get_process_exit, get_process_kprobe,
    get_process_tracepoint, get_time, get_pid, get_binary, get_pod, get_namespace, get_name,
    get_container,
  }

  abbrev pid_text : Option Process → Text
  pid_text none = []
  pid_text (some p) = elim (get_pid p) [ none ↦ [] | some n ↦ decimal n ]

  -- The second `switch` of extractProcessField.
  process_field : Text → Process → Option Process → Text
  process_field field proc parent =
      if text_eq field (str "pid")
      then pid_text (some proc)
      else if text_eq field (str "binary")
      then get_binary proc
      else if text_eq field (str "ppid")
      then pid_text parent
      else []

  unfoldable pub extract_process_field : Event → Text → Text
  unfolding process_field
  extract_process_field e field = with_process (get_process_exec e) (process_field field) (
      with_process (get_process_exit e) (process_field field) (
        with_process (get_process_kprobe e) (process_field field)
          (with_process (get_process_tracepoint e) (process_field field) [])))

  -- The second `switch` of extractK8sField, after its test for a nil pod.
  pod_field : Text → Option Pod → Text
  pod_field field none = []
  pod_field field (some pod) =
      if text_eq field (str "namespace")
      then get_namespace pod
      else if text_eq field (str "pod")
      then get_name pod
      else if text_eq field (str "container")
      then (elim (get_container pod) [ none ↦ [] | some name ↦ name ])
      else []

  unfoldable pub extract_k8s_field : Event → Text → Text
  unfolding pod_field
  extract_k8s_field e field =
      with_process (get_process_exec e) (λ p _. pod_field field (get_pod p))
        (with_process (get_process_exit e) (λ p _. pod_field field (get_pod p))
          (with_process (get_process_kprobe e) (λ p _. pod_field field (get_pod p))
            (with_process (get_process_tracepoint e) (λ p _. pod_field field (get_pod p)) [])))

  -- The `switch` of extractFieldValue over the parts of the field's name.
  field_value : Event → List Text → Text
  field_value e [] = []
  field_value e (head ∷ rest) =
      if text_eq head (str "node")
      then get_event_node api e
      else if text_eq head (str "type")
      then detect_event_type api e
      else if text_eq head (str "process")
      then (elim rest [ [] ↦ [] | field ∷ _ ↦ extract_process_field e field ])
      else if text_eq head (str "k8s")
      then (elim rest [ [] ↦ [] | field ∷ _ ↦ extract_k8s_field e field ])
      else if text_eq head (str "timestamp")
      then (elim (get_time e) [ none ↦ [] | some t ↦ decimal_ℤ t ])
      else []

  unfoldable pub extract_field_value : Event → Text → Text
  unfolding field_value
  extract_field_value e field = field_value e (split_dot field)

  -- The loop of GenerateDedupKey: `built` is what the builder holds.
  unfoldable pub build_key : Event → Text → Text → Bool → List Text → Text
  build_key e separator built first [] = built
  build_key e separator built first (field ∷ fields) =
      let value = extract_field_value e field in
      build_key e separator
        (if is_empty value
          then built
          else if first
          then built ++ value
          else built ++ (separator ++ value))
        (if is_empty value then first else false) fields

  -- `sha256` gives the 64 hexadecimal digits of the digest.
  unfoldable pub generate_dedup_key : (Text → Text) → Event → PartitionKeyConfig → Text
  generate_dedup_key sha256 e cfg =
      let key = build_key e cfg.separator [] true cfg.fields in
      if ltb 100 (length key) then take 32 (sha256 key) else key
