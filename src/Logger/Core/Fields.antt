-- ===== src/Logger/Core/Fields.antt =====
-- The fields that Write of internal/logger/kafka_core.go sends.
use tetragon_kafka_adapter.Prelude.{
  ◌≡◌, List, [], ◌∷◌, Option, none, some, Text, one_of, get, if◌then◌else◌,
}
use tetragon_kafka_adapter.Logger.Core.{encoder_keys}

module _ {V : Type 0} where
  -- A map has one entry for each key.
  abbrev pub OneEach : List (Text × V) → Type 0
  OneEach [] = Unit
  OneEach ((k, v) ∷ m) = (get k m ≡ none) × OneEach m

  abbrev pub or_else : Option V → Option V → Option V
  or_else none b = b
  or_else (some a) b = some a

  abbrev pub unless_reserved : Text → Option V → Option V
  unless_reserved k found = if one_of k encoder_keys then none else found
