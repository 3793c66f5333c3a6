-- ===== src/Health/Probe.antt =====
-- Probes of /health: internal/health/server.go.
use tetragon_kafka_adapter.Prelude.{
  ◌≤◌, ◌≡◌, ◌⊎◌, refl, Bool, true, false, none, some, List, [], ◌∷◌, str, text_eq, arith, length,
}
use tetragon_kafka_adapter.Queue.{Queue, size, capacity}
use tetragon_kafka_adapter.Health.{Server, set_ready, set_shutdown, health_handler, serve}

-- What main and other goroutines do to the flags.
pub data Change : Type 0 where
  readies : Bool → Change
  shuts : Change

pub apply : Server → List Change → Server
apply s [] = s
apply s (readies b ∷ cs) = apply (set_ready b s) cs
apply s (shuts ∷ cs) = apply (set_shutdown true s) cs

pub shutdown-apply :
    (s : Server) (cs : List Change) → s.shutdown ≡ true → (apply s cs).shutdown ≡ true
unfolding apply set_ready set_shutdown
shutdown-apply s [] h = h
shutdown-apply s (readies b ∷ cs) h = shutdown-apply _ cs h
shutdown-apply s (shuts ∷ cs) h = shutdown-apply _ cs refl

module _ {ℓ} {A : Type ℓ} where
  -- If the queue fits its channel, a probe of /health gets 200 while the service is ready and not
  -- shutting down, with the depth and the capacity of the queue, the depth within the capacity; and
  -- it gets 503 without them if the service is shutting down or not ready.
  serve_health :
      (s : Server) (q : Queue A)
      → length q.ch.items ≤ q.ch.capacity
      → let r = serve s q (str "/health") in
        ((s.ready ≡ true)
          × (s.shutdown ≡ false)
          × (r.code ≡ 200)
          × (r.queue ≡ some (size q, capacity q))
          × (size q ≤ capacity q))
        ⊎ (((s.ready ≡ false) ⊎ (s.shutdown ≡ true)) × (r.code ≡ 503) × (r.queue ≡ none))
  unfolding serve health_handler text_eq size capacity
  serve_health s q f = ground arith

  -- Once shutdown is set no later change of the flags lets a probe of /health succeed.
  serve_after_shutdown :
      (s : Server) (cs : List Change) (q : Queue A)
      → (serve (apply (set_shutdown true s) cs) q (str "/health")).code ≡ 503
  unfolding serve health_handler text_eq
  serve_after_shutdown s cs q =
      let h = shutdown-apply (set_shutdown true s) cs (unfold set_shutdown in refl) in ground arith
