-- ===== src/Metrics/Registry.antt =====
-- The registration of the metrics of internal/metrics/prometheus.go when the program starts.
use mathlib.Core.Path.{subst}
use mathlib.Core.List.{append_assoc, reverse, reverse-cons}
use tetragon_kafka_adapter.Prelude.{
  ℕ, ◌≡◌, refl, ◌∙◌, sym, ap, Bool, true, false, ◌&&◌, ◌||◌, not, List, [], ◌∷◌, ◌++◌, map, Option,
  none, some, Text, str, text_eq, text_eq_iff, one_of, leb, ◌==◌, arith,
}
use tetragon_kafka_adapter.Prelude.Every.{All}
use tetragon_kafka_adapter.Metrics.Declared.{Declaration, declarations}

-- Lower-case letters, digits and the underscore, a letter first: part of what Prometheus takes for a
-- name of a metric or of a label.
abbrev is_letter : ℕ → Bool
is_letter c = leb b'a' c && leb c b'z'

abbrev is_word : Text → Bool
is_word [] = true
is_word (c ∷ s) = (is_letter c || ((leb b'0' c && leb c b'9') || c == b'_')) && is_word s

abbrev is_name : Text → Bool
is_name [] = false
is_name (c ∷ s) = is_letter c && is_word s

abbrev all_names : List Text → Bool
all_names [] = true
all_names (l ∷ ls) = is_name l && all_names ls

abbrev differ : List Text → Bool
differ [] = true
differ (l ∷ ls) = not (one_of l ls) && differ ls

-- A description that Prometheus takes: names of the metric and the labels are well formed, the
-- labels differ, and none is the "le" of the histograms.
abbrev pub is_valid : Declaration → Bool
is_valid d =
    is_name d.name && (all_names d.labels && (differ d.labels && not (one_of (str "le") d.labels)))

-- prometheus.Registerer, with MustRegister: `none` is its panic.
pub record Registerer : Type 1 where
  pub Registry : Type 0
  pub names : Registry → List Text
  pub register : Registry → Declaration → Option Registry

-- A valid description under a name that is free is registered under its name.
abbrev pub IsRegisterer : Registerer → Type 0
IsRegisterer r =
    (s : r.Registry) (d : Declaration)
    → is_valid d ≡ true
    → one_of d.name (r.names s) ≡ false
    → (s' : r.Registry) × (r.register s d ≡ some s') × (r.names s' ≡ d.name ∷ r.names s)

module _ (registerer : Registerer) where
  open registerer use {Registry, names, register}

  -- The package's variables, one after another.
  unfoldable pub register_all : Registry → List Declaration → Option Registry
  register_all s [] = some s
  register_all s (d ∷ ds) = elim (register s d) [ none ↦ none | some s' ↦ register_all s' ds ]

  abbrev pub IsFree : List Text → Declaration → Type 0
  IsFree taken d = one_of d.name taken ≡ false

  cons-IsFree :
      (d : Declaration) (ds : List Declaration) (taken : List Text)
      → one_of d.name (map (λ e. e.name) ds) ≡ false
      → All (IsFree taken) ds
      → All (IsFree (d.name ∷ taken)) ds
  unfolding one_of
  cons-IsFree d [] taken h f = tt
  cons-IsFree d (e ∷ ds) taken h f = (
    ground (arith, text_eq_iff e.name d.name, text_eq_iff d.name e.name),
    cons-IsFree d ds taken (ground arith) f.1,
  )

  -- Each description is valid and no name is that of a later one.
  abbrev are_sound : List Declaration → Bool
  are_sound [] = true
  are_sound (d ∷ ds) =
      let rest = are_sound ds in is_valid d && (not (one_of d.name (map (λ e. e.name) ds)) && rest)

  sound_parts :
      (d : Declaration) (ds : List Declaration)
      → are_sound (d ∷ ds) ≡ true
      → (is_valid d ≡ true) × (one_of d.name (map (λ e. e.name) ds) ≡ false) × (are_sound ds ≡ true)
  sound_parts d ds h = ground arith

  register_all_sound :
      IsRegisterer registerer
      → (ds : List Declaration) (s : Registry) → are_sound ds ≡ true
      → All (IsFree (names s)) ds
      → (s' : Registry) × (register_all s ds ≡ some s')
        × (names s' ≡ reverse (map (λ d. d.name) ds) ++ names s)
  unfolding register_all
  register_all_sound law [] s h f = (s, refl, refl)
  register_all_sound law (d ∷ ds) s h f =
      let (valid, new, rest) = sound_parts d ds h in
      let (s', ok, named) = law s d valid f.0 in
      let free : All (IsFree (names s')) ds =
        subst (λ l. All (IsFree l) ds) (sym named) (cons-IsFree d ds (names s) new f.1) in
      let (s'', ok', named') = register_all_sound law ds s' rest free in
      (
        s'',
        rw (ok, register_all) ok',
        named'
            ∙ ap (λ l. reverse (map (λ e. e.name) ds) ++ l) named
            ∙ sym (append_assoc (reverse (map (λ e. e.name) ds)) (d.name ∷ []) (names s))
            ∙ ap (λ l. l ++ names s) (sym (reverse-cons d.name (map (λ e. e.name) ds))),
      )

  are_sound-declarations : are_sound declarations ≡ true
  unfolding declarations one_of text_eq
  are_sound-declarations = refl

  -- With a registerer that takes every valid description under a free name, and where none of the
  -- names of the package is taken, the package registers all its metrics without a panic, and the
  -- names that are then taken are those of the metrics and those that were taken before.
  pub register_all-declarations :
      (s : Registry)
      → IsRegisterer registerer
      → All (IsFree (names s)) declarations
      → (s' : Registry) × (register_all s declarations ≡ some s')
        × (names s' ≡ reverse (map (λ d. d.name) declarations) ++ names s)
  register_all-declarations s law free =
      register_all_sound law declarations s are_sound-declarations free
