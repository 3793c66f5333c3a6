-- ===== src/Consumer/Probes/Turns.antt =====
-- The order of the answers of /health over the life of cmd/consumer/main.go.
use tetragon_kafka_adapter.Prelude.{
  ℕ, replicate-suc, replicate-more, suc, ◌≡◌, refl, sym, ap, ◌∙◌, inl, inr, true, false, List, [],
  ◌∷◌, ◌++◌, map, replicate, Option, none, some, Text, str, text_eq, arith, Bool-cases, ◌+◌,
}
use mathlib.Core.Path.{subst}
use mathlib.Core.List.{append-nil, map-append}
use tetragon_kafka_adapter.Config.{Config}
use tetragon_kafka_adapter.Queue.{Queue}
use tetragon_kafka_adapter.Health.{
  Server, Response, new_server, set_ready, set_shutdown, health_handler, serve,
}
use tetragon_kafka_adapter.Consumer.Startup.{readied}
use tetragon_kafka_adapter.Consumer.Shutdown.{refuses}
use tetragon_kafka_adapter.Consumer.Probes.{
  start, shutdown, Stage, prepares, receives, stops, shut, Life, begin, LifeStep, starts, accepts,
  answers, readies, refuses_probes, shuts_down, LifeReach, stays, steps,
}

abbrev pub not_ready_yet : ℕ × Text
not_ready_yet = (503, str "not ready")

abbrev pub healthy : ℕ × Text
healthy = (200, str "healthy")

abbrev pub shutting_down : ℕ × Text
shutting_down = (503, str "shutting down")

abbrev pub code_and_status : Response → ℕ × Text
code_and_status r = (r.code, r.status)

-- First those of a service that is not ready, then those of a healthy one, then those of one that
-- shuts down.
unfoldable pub in_turn : (a b c : ℕ) → List (ℕ × Text)
in_turn a b c = (replicate a not_ready_yet ++ replicate b healthy) ++ replicate c shutting_down

-- The flags at each stage, and which answers have not yet been given.
Fits : Stage → Option Server → (b c : ℕ) → Type 0
Fits stage none b c = (b ≡ 0) × (c ≡ 0)
Fits prepares (some s) b c = (s.ready ≡ false) × (s.shutdown ≡ false) × (b ≡ 0) × (c ≡ 0)
Fits receives (some s) b c = (s.ready ≡ true) × (s.shutdown ≡ false) × (c ≡ 0)
Fits stops (some s) b c = s.shutdown ≡ true
Fits shut (some s) b c = s.shutdown ≡ true

in_turn_unready : (a : ℕ) → in_turn a 0 0 ≡ replicate a not_ready_yet
unfolding in_turn
in_turn_unready a =
    append-nil (replicate a not_ready_yet ++ []) ∙ append-nil (replicate a not_ready_yet)

not_ready-in_turn : (a : ℕ) → in_turn a 0 0 ++ not_ready_yet ∷ [] ≡ in_turn (suc a) 0 0
not_ready-in_turn a =
    ap (◌++ (not_ready_yet ∷ [])) (in_turn_unready a)
    ∙ replicate-suc a not_ready_yet
    ∙ sym (in_turn_unready (suc a))

healthy-in_turn : (a b : ℕ) → in_turn a b 0 ++ healthy ∷ [] ≡ in_turn a (suc b) 0
unfolding in_turn
healthy-in_turn a b =
    let many = replicate a not_ready_yet in
    ap (◌++ (healthy ∷ [])) (append-nil (many ++ replicate b healthy))
    ∙ replicate-more many b healthy
    ∙ sym (append-nil (many ++ replicate (suc b) healthy))

shutting-in_turn : (a b c : ℕ) → in_turn a b c ++ shutting_down ∷ [] ≡ in_turn a b (suc c)
unfolding in_turn
shutting-in_turn a b c =
    replicate-more (replicate a not_ready_yet ++ replicate b healthy) c shutting_down

module _ {E : Type 0} where
  probe : Server → Queue E → ℕ × Text
  probe s q = code_and_status (serve s q (str "/health"))

  probe_ready :
      (s : Server) (q : Queue E) → s.ready ≡ true → s.shutdown ≡ false → probe s q ≡ healthy
  unfolding probe serve health_handler text_eq
  probe_ready s q r d = rw (d, r)

  probe_unready :
      (s : Server) (q : Queue E) → s.ready ≡ false → s.shutdown ≡ false → probe s q ≡ not_ready_yet
  unfolding probe serve health_handler text_eq
  probe_unready s q r d = rw (d, r)

  probe_shutdown : (s : Server) (q : Queue E) → s.shutdown ≡ true → probe s q ≡ shutting_down
  unfolding probe serve health_handler text_eq
  probe_shutdown s q d = rw d

  probe-Fits :
      (stage : Stage) (s : Server) (q : Queue E) (a b c : ℕ)
      → Fits stage (some s) b c
      → (a' b' c' : ℕ) × (in_turn a b c ++ probe s q ∷ [] ≡ in_turn a' b' c')
        × Fits stage (some s) b' c'
  unfolding Fits
  probe-Fits prepares s q a b c (r, d, none_healthy, none_yet) = (
    suc a,
    0,
    0,
    rw (none_healthy, none_yet, probe_unready s q r d, not_ready-in_turn a),
    (r, d, refl, refl),
  )
  probe-Fits receives s q a b c (r, d, none_yet) =
      (a, suc b, 0, rw (none_yet, probe_ready s q r d, healthy-in_turn a b), (r, d, refl))
  probe-Fits stops s q a b c d = (a, b, suc c, rw (probe_shutdown s q d, shutting-in_turn a b c), d)
  probe-Fits shut s q a b c d = (a, b, suc c, rw (probe_shutdown s q d, shutting-in_turn a b c), d)

-- The answers so far are in turn, and the flags fit the stage.
abbrev IsInTurn : Life → Type 0
IsInTurn l =
    (a b c : ℕ) × (map code_and_status l.answers ≡ in_turn a b c) × Fits l.stage l.health b c

readied-Fits : (h : Option Server) (b c : ℕ) → Fits prepares h b c → Fits receives (readied h) b c
unfolding Fits set_ready
readied-Fits none b c fit = fit
readied-Fits (some s) b c (r, d, none_healthy, none_yet) = (refl, d, none_yet)

refused-Fits : (h : Option Server) (b c : ℕ) → Fits receives h b c → Fits stops (refuses h) b c
unfolding Fits set_shutdown
refused-Fits none b c fit = fit
refused-Fits (some s) b c fit = refl

shut-Fits : (h : Option Server) (b c : ℕ) → Fits stops h b c → Fits shut h b c
unfolding Fits
shut-Fits none b c fit = fit
shut-Fits (some s) b c fit = fit

prepares-none : (h : Option Server) (b c : ℕ) → Fits prepares h b c → b + c ≡ 0
unfolding Fits
prepares-none none b c (p, q) = omega (arith, p, q)
prepares-none (some s) b c (r, d, p, q) = omega (arith, p, q)

receives-none : (h : Option Server) (b c : ℕ) → Fits receives h b c → c ≡ 0
unfolding Fits
receives-none none b c (p, q) = q
receives-none (some s) b c (r, d, q) = q

begin-IsInTurn : (cfg : Config) → IsInTurn (begin cfg)
unfolding begin Fits in_turn new_server set_ready
begin-IsInTurn cfg = (
  0,
  0,
  0,
  refl,
  elim (Bool-cases cfg.monitoring.enabled) [
    | inl on ↦ rw on (refl, refl, refl, refl)
    | inr off ↦ rw off (refl, refl)
  ],
)

LifeStep-IsInTurn : {E : Type 0} {l m : Life} → LifeStep E l m → IsInTurn l → IsInTurn m
unfolding probe start shutdown
LifeStep-IsInTurn (starts l listens h) i = i
LifeStep-IsInTurn (accepts l h k) i = i
LifeStep-IsInTurn (answers l n s q h k) (a, b, c, eq, fit) =
    let at_server = subst (λ o. Fits l.stage o b c) k fit in
    let (a', b', c', next, fit') = probe-Fits l.stage s q a b c at_server in
    (
      a',
      b',
      c',
      map-append code_and_status l.answers (serve s q (str "/health") ∷ [])
          ∙ ap (◌++ (probe s q ∷ [])) eq
          ∙ next,
      subst (λ o. Fits l.stage o b' c') (sym k) fit',
    )
LifeStep-IsInTurn (readies l h) (a, b, c, eq, fit) =
    (a, b, c, eq, readied-Fits l.health b c (subst (λ x. Fits x l.health b c) h fit))
LifeStep-IsInTurn (refuses_probes l h) (a, b, c, eq, fit) =
    (a, b, c, eq, refused-Fits l.health b c (subst (λ x. Fits x l.health b c) h fit))
LifeStep-IsInTurn (shuts_down l h) (a, b, c, eq, fit) =
    (a, b, c, eq, shut-Fits l.health b c (subst (λ x. Fits x l.health b c) h fit))

LifeReach-IsInTurn : {E : Type 0} {l m : Life} → LifeReach E l m → IsInTurn l → IsInTurn m
LifeReach-IsInTurn stays i = i
LifeReach-IsInTurn (steps r x) i = LifeStep-IsInTurn x (LifeReach-IsInTurn r i)

-- Whatever the probes of /health and the queue do, from the start of main on the answers come in
-- turn: at first only 503 "not ready", then only 200 "healthy", then only 503 "shutting down". As
-- long as main has not set the service ready, all have been of the first kind, and as long as main
-- has not told it to refuse, none has been of the last.
pub LifeReach-in_turn :
    (E : Type 0) (cfg : Config) (l : Life)
    → LifeReach E (begin cfg) l
    → (a b c : ℕ) × (map code_and_status l.answers ≡ in_turn a b c)
      × (l.stage ≡ prepares → b + c ≡ 0)
      × (l.stage ≡ receives → c ≡ 0)
LifeReach-in_turn E cfg l r =
    let (a, b, c, eq, fit) = LifeReach-IsInTurn r (begin-IsInTurn cfg) in
    (
      a,
      b,
      c,
      eq,
      (λ at. prepares-none l.health b c (subst (λ x. Fits x l.health b c) at fit)),
      (λ at. receives-none l.health b c (subst (λ x. Fits x l.health b c) at fit)),
    )
