-- ===== src/Queue/Sampler.antt =====
-- internal/queue/sampler.go. `draw` is the value of `s.rand.Float64()` for this call.
pub mod Ratio
use tetragon_kafka_adapter.Prelude.{
  Bool, true, false, List, [], ◌∷◌, Float64, ltb_f, leb_f, one_f, if◌then◌else◌,
}
use tetragon_kafka_adapter.Config.{StreamConfig}
use tetragon_kafka_adapter.Metrics.{Metric, sampled}
use tetragon_kafka_adapter.Tetragon.{TetragonApi}
use tetragon_kafka_adapter.Router.{detect_event_type}

module _ (api : TetragonApi) where
  open api use {Event}

  unfoldable pub should_sample : StreamConfig → Float64 → Event → Bool × List Metric
  should_sample cfg draw e =
      if leb_f one_f cfg.sample_ratio
      then (true, sampled (detect_event_type api e) ∷ [])
      else if ltb_f draw cfg.sample_ratio
      then (true, sampled (detect_event_type api e) ∷ [])
      else (false, [])
