-- ===== src/Tests/Surroundings.antt =====
-- What the service finds around it: the variable with the brokers, the runtime's memory, and the sampled trace ids.
use tetragon_kafka_adapter.Prelude.{
  ℕ, ◌+◌, ◌≡◌, refl, List, [], ◌∷◌, map, Text, str, true, Float64, ltb_f, leb_f, arith,
}
use tetragon_kafka_adapter.Config.Loader.{Settings, search, bind_env_vars}
use tetragon_kafka_adapter.Config.Loader.Brokers.{Written, join_commas, bind_env_vars-join_commas}
use tetragon_kafka_adapter.Metrics.Memory.{MemStats, no_memory, update_all}
use tetragon_kafka_adapter.Metrics.Memory.Totals.{last_of, update_all-growth}
use tetragon_kafka_adapter.Pipeline.Transform.{
  hash_from, divided, normalized, should_log_data_transform,
}
use tetragon_kafka_adapter.Tests.Samples.{same_unicode}

abbrev first_broker : Written
first_broker = record { before = 0; broker = str "k1:9"; after = 1 }

abbrev second_broker : Written
second_broker = record { before = 2; broker = str "k2:9"; after = 0 }

abbrev environment : Text → Text
environment name = join_commas (first_broker ∷ second_broker ∷ [])

abbrev no_settings : Settings
no_settings = record { source = search (str "config") []; bound = []; overrides = [] }

bind_env_vars-join_commas_example :
    (bind_env_vars same_unicode environment no_settings).overrides
    ≡ (str "kafka.brokers", map (λ u. u.broker) (first_broker ∷ second_broker ∷ [])) ∷ []
bind_env_vars-join_commas_example =
    bind_env_vars-join_commas same_unicode environment no_settings first_broker (second_broker ∷ [])
      refl
      (
        (
          (
            (omega arith, refl, λ e. omega (arith, e)),
            (
              (omega arith, refl, λ e. omega (arith, e)),
              (
                (omega arith, refl, λ e. omega (arith, e)),
                ((omega arith, refl, λ e. omega (arith, e)), tt),
              ),
            ),
          ),
          λ e. cc,
        ),
        (
          ((
            (
              (omega arith, refl, λ e. omega (arith, e)),
              (
                (omega arith, refl, λ e. omega (arith, e)),
                (
                  (omega arith, refl, λ e. omega (arith, e)),
                  ((omega arith, refl, λ e. omega (arith, e)), tt),
                ),
              ),
            ),
            λ e. cc,
          )),
          tt,
        ),
      )

abbrev reading : ℕ → ℕ → MemStats
reading total gcs = record {
  alloc = 10;
  sys = 100;
  heap_alloc = 10;
  heap_sys = 90;
  heap_inuse = 20;
  heap_idle = 70;
  total_alloc = total;
  num_gc = gcs;
}

abbrev later_readings : List (MemStats × ℕ)
later_readings = (reading 700 3, 12) ∷ (reading 900 3, 11) ∷ []

update_all-growth_example :
    let s = update_all ((reading 500 2, 12) ∷ later_readings) no_memory in
    let last = last_of (reading 500 2) later_readings in
    (s.memory_total_alloc_bytes + 500 ≡ last.total_alloc) × (s.memory_num_gc + 2 ≡ last.num_gc)
update_all-growth_example =
    update_all-growth (reading 500 2) 12 later_readings
      (omega arith, omega arith, (omega arith, omega arith, tt))

half_divided : divided 54 52 1 2 ≡ record { bits = 0x3fe0000000000000 }
unfolding divided
half_divided = refl

third_divided : divided 54 52 1 3 ≡ record { bits = 0x3fd5555555555555 }
unfolding divided
third_divided = refl

two_thirds_divided : divided 54 52 2 3 ≡ record { bits = 0x3fe5555555555555 }
unfolding divided
two_thirds_divided = refl

id_normalized : normalized (hash_from 0 (str "0f3c")) ≡ record { bits = 0x3f475746002eae8c }
unfolding divided normalized hash_from
id_normalized = refl

abbrev hundredth : Float64
hundredth = record { bits = 0x3f847ae147ae147b }

hundredth_logs : should_log_data_transform same_unicode (str "0f3c") hundredth ≡ true
unfolding should_log_data_transform divided normalized hash_from ltb_f leb_f
hundredth_logs = refl
