-- ===== src/Logger/Core/With.antt =====
-- With, Enabled and Check of internal/logger/kafka_core.go, and the cores that With makes. zap's
-- encoder, whose Clone is a copy, and its level enabler are parameters.
use mathlib.Core.List.{foldl, foldl-append}
use tetragon_kafka_adapter.Prelude.{
  ◌≡◌, refl, ◌∙◌, sym, if◌then◌else◌, Bool, false, List, [], ◌∷◌, ◌++◌,
}
use tetragon_kafka_adapter.Kafka.Worker.Batches.{concat}
use tetragon_kafka_adapter.Logger.Core.{
  KafkaCore, LogShared, clone, sync, synced, close_of_closed, close_core,
}

module _ {Encoder Field : Type 0} (add_to : Encoder → Field → Encoder) where
  unfoldable pub with_fields : KafkaCore × Encoder → List Field → KafkaCore × Encoder
  with_fields (core, encoder) fields = (clone core, foldl add_to encoder fields)

  -- Calls of With one after another, each on the core that the last one gave.
  unfoldable pub derive : KafkaCore × Encoder → List (List Field) → KafkaCore × Encoder
  derive c [] = c
  derive c (fields ∷ more) = derive (with_fields c fields) more

-- zapcore.CheckedEntry and its AddCore are parameters too.
unfoldable pub check :
    {Level Core Checked : Type 0}
    → (enabled : Level → Bool) → (add_core : Checked → Core → Checked) → Core
    → Level
    → Checked
    → Checked
check enabled add_core core level checked = if enabled level then add_core checked core else checked

-- A core that knows no worker and has not been closed.
abbrev is_fresh : KafkaCore
is_fresh = record { counts_worker = false; closed_once = false }

module _ {Encoder Field : Type 0} (add_to : Encoder → Field → Encoder) where
  derive-fresh :
      (c : KafkaCore × Encoder) (fields : List Field) (more : List (List Field))
      → (derive add_to c (fields ∷ more)).0 ≡ is_fresh
  unfolding derive with_fields clone
  derive-fresh c fields [] = refl
  derive-fresh c fields (f ∷ more) = derive-fresh (with_fields add_to c fields) f more

  derive-encoder :
      (c : KafkaCore × Encoder) (more : List (List Field))
      → (derive add_to c more).1 ≡ foldl add_to c.1 (concat more)
  unfolding derive with_fields concat
  derive-encoder c [] = refl
  derive-encoder c (fields ∷ more) =
      derive-encoder (with_fields add_to c fields) more
      ∙ sym (foldl-append add_to c.1 fields (concat more))

  -- A core made by one or more calls of With has the encoder with all their fields, in their order.
  -- Its Sync returns at once while the worker still runs. And of a core that was not closed and the
  -- one made from it, whichever is closed second closes the channel a second time and panics.
  pub derive-close_core :
      (core : KafkaCore) (encoder : Encoder) (fields : List Field) (more : List (List Field))
      (s : LogShared)
      → core.closed_once ≡ false
      → s.log_ch.closed ≡ false
      → let (made, e) = derive add_to (core, encoder) (fields ∷ more) in
        (e ≡ foldl add_to encoder (fields ++ concat more))
        × (sync made s false ≡ synced)
        × ((close_core made (close_core core s).1.1).0 ≡ close_of_closed)
        × ((close_core core (close_core made s).1.1).0 ≡ close_of_closed)
  unfolding sync close_core concat
  derive-close_core core encoder fields more s c o =
      let fresh = derive-fresh (core, encoder) fields more in
      (
        derive-encoder (core, encoder) (fields ∷ more),
        rw fresh refl,
        rw (fresh, c, o) refl,
        rw (fresh, o, c) refl,
      )
