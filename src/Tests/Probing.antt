-- ===== src/Tests/Probing.antt =====
-- Probes of /health from the start of the service to its end.
use tetragon_kafka_adapter.Prelude.{
  ◌≡◌, refl, true, false, [], ◌∷◌, map, none, some, ℕ, ◌+◌, arith, str, text_eq,
}
use tetragon_kafka_adapter.Config.Default.{default_config}
use tetragon_kafka_adapter.Queue.{Queue, size, capacity}
use tetragon_kafka_adapter.Health.{new_server, set_ready, set_shutdown, health_handler, serve}
use tetragon_kafka_adapter.Consumer.Probes.{
  prepares, receives, shut, Life, begin, start, shutdown, LifeReach, stays, steps, starts, accepts,
  answers, readies, refuses_probes, shuts_down,
}
use tetragon_kafka_adapter.Consumer.Probes.Turns.{code_and_status, in_turn, LifeReach-in_turn}

abbrev empty_queue : Queue ℕ
empty_queue = record {
  ch = record { items = []; capacity = 10; closed = false };
  drop_if_queue_full = false;
  stopped = false;
}

-- Three probes have been answered, the last one after the call of Shutdown.
abbrev three_probes : Life
three_probes = record {
  stage = shut;
  health = some (record { ready = true; shutdown = true });
  listening = true;
  open_probes = 0;
  answers =
      record { code = 503; status = str "not ready"; queue = none }
      ∷ record { code = 200; status = str "healthy"; queue = some (0, 10) }
      ∷ record { code = 503; status = str "shutting down"; queue = none }
      ∷ [];
}

reach-three_probes : LifeReach ℕ (begin default_config) three_probes
unfolding begin start shutdown set_ready set_shutdown new_server health_handler serve size capacity
    text_eq
reach-three_probes =
    steps
      (steps
        (steps
          (steps
            (steps
              (steps
                (steps
                  (steps
                    (steps (steps stays (starts _ true (ground arith)))
                      (accepts _ refl (ground arith)))
                    (answers _ 0 _ empty_queue refl refl))
                  (readies _ refl))
                (accepts _ refl (ground arith)))
              (answers _ 0 _ empty_queue refl refl))
            (refuses_probes _ refl))
          (accepts _ refl (ground arith)))
        (shuts_down _ refl))
      (answers _ 0 _ empty_queue refl refl)

LifeReach-in_turn_example :
    (a b c : ℕ) × (map code_and_status three_probes.answers ≡ in_turn a b c)
    × (three_probes.stage ≡ prepares → b + c ≡ 0)
    × (three_probes.stage ≡ receives → c ≡ 0)
LifeReach-in_turn_example = LifeReach-in_turn ℕ default_config three_probes reach-three_probes
