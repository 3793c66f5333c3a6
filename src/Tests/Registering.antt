-- ===== src/Tests/Registering.antt =====
-- The metrics of the service in a registry that already holds one of the Go runtime.
use tetragon_kafka_adapter.Prelude.{
  ◌≡◌, refl, ◌&&◌, not, List, [], ◌∷◌, ◌++◌, map, Option, none, some, Text, str, one_of, text_eq,
  if◌then◌else◌, arith,
}
use mathlib.Core.List.{reverse}
use tetragon_kafka_adapter.Metrics.Declared.{Declaration, declarations}
use tetragon_kafka_adapter.Metrics.Registry.{
  Registerer, IsRegisterer, is_valid, IsFree, register_all, register_all-declarations,
}
use tetragon_kafka_adapter.Prelude.Every.{All}

abbrev register_name : List Text → Declaration → Option (List Text)
register_name taken d =
    if is_valid d && not (one_of d.name taken) then some (d.name ∷ taken) else none

abbrev by_name : Registerer
by_name = record { Registry = List Text; names = λ s. s; register = register_name }

by_name-IsRegisterer : IsRegisterer by_name
by_name-IsRegisterer s d valid free = (d.name ∷ s, rw (valid, free) refl, refl)

abbrev go_metrics : List Text
go_metrics = str "go_goroutines" ∷ []

go_metrics-IsFree : All (IsFree by_name go_metrics) declarations
unfolding declarations one_of text_eq
go_metrics-IsFree = ground arith

register_all-declarations_example :
    (s : List Text) × (register_all by_name go_metrics declarations ≡ some s)
    × (s ≡ reverse (map (λ d. d.name) declarations) ++ go_metrics)
register_all-declarations_example =
    register_all-declarations by_name go_metrics by_name-IsRegisterer go_metrics-IsFree
