-- ===== src/Pipeline/Transform/Ratios.antt =====
-- The sample of shouldLogDataTransform of cmd/consumer/main.go at different ratios.
use tetragon_kafka_adapter.Prelude.{ℕ, ◌≡◌, true, List, Text, Float64, ltb_f, leb_f, arith}
use tetragon_kafka_adapter.Pipeline.Transform.{should_log_data_transform}

module _ (runes : Text → List ℕ) where
  -- An event that is logged at one ratio is logged at every larger ratio.
  should_log_data_transform-leb_f :
      (trace_id : Text) (r s : Float64)
      → leb_f r s ≡ true
      → should_log_data_transform runes trace_id r ≡ true
      → should_log_data_transform runes trace_id s ≡ true
  unfolding should_log_data_transform ltb_f leb_f
  should_log_data_transform-leb_f trace_id r s l h = ground arith
