-- ===== src/Kafka/PartitionKey/Shape.antt =====
-- The key of internal/kafka/partition_key.go and the join of the values of its fields.
use mathlib.Core.List.{append-nil, append_assoc}
use tetragon_kafka_adapter.Prelude.{
  ◌⊎◌, ◌≤◌, ◌<◌, ◌≡◌, refl, ◌≢◌, ◌∙◌, sym, ap, true, false, List, [], ◌∷◌, ◌++◌, Text, str,
  is_empty, split_dot, length, take, if◌then◌else◌, arith, inl, inr, length-take, text_eq,
}
use tetragon_kafka_adapter.Tetragon.{TetragonApi}
use tetragon_kafka_adapter.Config.{PartitionKeyConfig}
use tetragon_kafka_adapter.Router.{get_event_node}
use tetragon_kafka_adapter.Router.Topics.{get_event_node-ne-nil}
use tetragon_kafka_adapter.Kafka.PartitionKey.{extract_field_value, build_key, generate_dedup_key}

-- strings.Join: each value after the first stands behind a separator.
joined : Text → List Text → Text
joined sep [] = []
joined sep (v ∷ vs) = sep ++ (v ++ joined sep vs)

pub join : Text → List Text → Text
unfolding joined
join sep [] = []
join sep (v ∷ vs) = v ++ joined sep vs

pub non_empty : List Text → List Text
non_empty [] = []
non_empty ([] ∷ vs) = non_empty vs
non_empty ((c ∷ v) ∷ vs) = (c ∷ v) ∷ non_empty vs

module _ (api : TetragonApi) where
  open api use {Event}

  pub values : Event → List Text → List Text
  values e [] = []
  values e (f ∷ fs) = extract_field_value api e f ∷ values e fs

  abbrev appended : Text → Text → List Text → Text
  appended built sep vs = built ++ joined sep (non_empty vs)

  -- Behind the first value the loop appends a separator and a value for each that is not empty.
  build_key_later :
      (e : Event) (sep : Text) (built : Text) (fs : List Text)
      → build_key api e sep built false fs ≡ appended built sep (values e fs)
  unfolding build_key values non_empty joined
  build_key_later e sep built [] = sym (append-nil built)
  build_key_later e sep built (f ∷ fs) =
      later (extract_field_value api e f) (λ b. build_key_later e sep b fs)
    where
      later :
          (v : Text)
          → ((b : Text) → build_key api e sep b false fs ≡ appended b sep (values e fs))
          → build_key api e sep
              (if is_empty v then built else built ++ (sep ++ v))
              (if is_empty v then false else false)
              fs
            ≡ appended built sep (v ∷ values e fs)
      later [] ih = ih built
      later (c ∷ v) ih = ih (built ++ (sep ++ c ∷ v)) ∙ simp append_assoc

  -- The key before the length test is the join of the values that are not empty.
  pub build_key-join :
      (e : Event) (sep : Text) (fs : List Text)
      → build_key api e sep [] true fs ≡ join sep (non_empty (values e fs))
  unfolding build_key values non_empty join
  build_key-join e sep [] = refl
  build_key-join e sep (f ∷ fs) = first (extract_field_value api e f) (build_key-join e sep fs)
    where
      first :
          (v : Text)
          → build_key api e sep [] true fs ≡ join sep (non_empty (values e fs))
          → build_key api e sep
              (if is_empty v then [] else v)
              (if is_empty v then true else false)
              fs
            ≡ join sep (non_empty (v ∷ values e fs))
      first [] ih = ih
      first (c ∷ v) ih = build_key_later e sep (c ∷ v) fs

  abbrev pub joined_values : Event → PartitionKeyConfig → Text
  joined_values e cfg = join cfg.separator (non_empty (values e cfg.fields))

  -- The message key is the configured fields' values joined by the separator, empty values left
  -- out, if that has at most 100 bytes, and otherwise the first 32 digits of its hash.
  pub generate_dedup_key-join :
      (sha256 : Text → Text) (e : Event) (cfg : PartitionKeyConfig)
      → ((length (joined_values e cfg) ≤ 100)
          × (generate_dedup_key api sha256 e cfg ≡ joined_values e cfg))
        ⊎ ((100 < length (joined_values e cfg))
            × (generate_dedup_key api sha256 e cfg ≡ take 32 (sha256 (joined_values e cfg))))
  unfolding generate_dedup_key
  generate_dedup_key-join sha256 e cfg =
      rw (build_key-join e cfg.separator cfg.fields, generate_dedup_key) (ground arith)

  -- A key is never longer than 100 bytes.
  pub length-generate_dedup_key :
      (sha256 : Text → Text) (e : Event) (cfg : PartitionKeyConfig)
      → length (generate_dedup_key api sha256 e cfg) ≤ 100
  length-generate_dedup_key sha256 e cfg = elim (generate_dedup_key-join sha256 e cfg) [
    | inl (h, k) ↦ rw k h
    | inr (h, k) ↦ rw k (omega (arith, length-take 32 (sha256 (joined_values e cfg))))
  ]

  -- Events that agree on the value of each configured field.
  abbrev pub Agree : Event → Event → List Text → Type 0
  Agree e e' [] = Unit
  Agree e e' (f ∷ fs) = (extract_field_value api e f ≡ extract_field_value api e' f) × Agree e e' fs

  values_of_Agree : (e e' : Event) (fs : List Text) → Agree e e' fs → values e fs ≡ values e' fs
  unfolding values
  values_of_Agree e e' [] h = refl
  values_of_Agree e e' (f ∷ fs) h = cc (h.0, values_of_Agree e e' fs h.1)

  -- Events that agree on the value of each configured field get one key.
  generate_dedup_key-Agree :
      (sha256 : Text → Text) (e e' : Event) (cfg : PartitionKeyConfig)
      → Agree e e' cfg.fields
      → generate_dedup_key api sha256 e cfg ≡ generate_dedup_key api sha256 e' cfg
  unfolding generate_dedup_key
  generate_dedup_key-Agree sha256 e e' cfg h = rw (
    build_key-join e cfg.separator cfg.fields,
    build_key-join e' cfg.separator cfg.fields,
    values_of_Agree e e' cfg.fields h,
  )

  node_value : (e : Event) → extract_field_value api e (str "node") ≡ get_event_node api e
  unfolding extract_field_value split_dot text_eq
  node_value e = refl

  join-ne-nil : (sep v : Text) (vs : List Text) → v ≢ [] → join sep (non_empty (v ∷ vs)) ≢ []
  unfolding join non_empty
  join-ne-nil sep [] vs h = absurd (h refl)
  join-ne-nil sep (c ∷ v) vs h = λ e. cc

  -- With "node" first among the fields, as in the default configuration, no event has an empty
  -- key, if the hash gives 64 digits.
  generate_dedup_key-ne-nil :
      (sha256 : Text → Text) (e : Event) (cfg : PartitionKeyConfig) (fs : List Text)
      → ((s : Text) → length (sha256 s) ≡ 64)
      → cfg.fields ≡ str "node" ∷ fs
      → generate_dedup_key api sha256 e cfg ≢ []
  unfolding values
  generate_dedup_key-ne-nil sha256 e cfg fs digest h = elim (generate_dedup_key-join sha256 e cfg) [
    | inl (_, k) ↦
        rw (k, h, node_value e)
          (join-ne-nil cfg.separator (get_event_node api e) (values e fs)
            (get_event_node-ne-nil api e))
    | inr (_, k) ↦ λ z. absurd (
        omega (
          arith,
          ap length (sym k ∙ z),
          length-take 32 (sha256 (joined_values e cfg)),
          digest (joined_values e cfg),
        ))
  ]
