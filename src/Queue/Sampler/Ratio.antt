-- ===== src/Queue/Sampler/Ratio.antt =====
-- Sample ratios: internal/queue/sampler.go with the test of internal/config/validator.go.
use tetragon_kafka_adapter.Prelude.{
  ◌≡◌, true, false, [], Float64, is_nan, ltb_f, leb_f, one_f, arith,
}
use tetragon_kafka_adapter.Config.{StreamConfig}
use tetragon_kafka_adapter.Tetragon.{TetragonApi}
use tetragon_kafka_adapter.Config.Validator.{check_stream}
use tetragon_kafka_adapter.Queue.Sampler.{should_sample}

module _ (api : TetragonApi) where
  open api use {Event}

  -- A sample ratio that is not a number passes the validator's test of the stream whenever the
  -- ratio 1 does with the same other settings, and then no event is sampled or counted, whatever the
  -- random draw.
  should_sample_nan :
      (cfg : StreamConfig) (draw : Float64) (e : Event)
      → is_nan cfg.sample_ratio ≡ true
      → (check_stream cfg ≡ check_stream (record cfg { sample_ratio = one_f }))
        × (should_sample api cfg draw e ≡ (false, []))
  unfolding should_sample check_stream ltb_f leb_f
  should_sample_nan cfg draw e h = (ground arith, ground arith)
