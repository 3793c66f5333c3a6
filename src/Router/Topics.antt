-- ===== src/Router/Topics.antt =====
-- Topics and event types of internal/router.
use mathlib.Core.List.{Memᴰ}
use tetragon_kafka_adapter.Prelude.{
  ◌≡◌, ◌≢◌, ◌⊎◌, inl, inr, List, [], ◌∷◌, none, some, Text, str, get, text_eq, text_eq_iff,
  Bool-cases, Option-cases, if◌then◌else◌, arith,
}
use tetragon_kafka_adapter.Tetragon.{TetragonApi, is_some}
use tetragon_kafka_adapter.Config.Default.{default_config}
use tetragon_kafka_adapter.Router.{Router, new_router, detect_event_type, route, get_event_node}

abbrev Detected : Text → Type 0
Detected t =
    (t ≡ str "process_exec")
    ⊎ (t ≡ str "process_exit")
    ⊎ (t ≡ str "process_kprobe")
    ⊎ (t ≡ str "process_tracepoint")
    ⊎ (t ≡ str "test")
    ⊎ (t ≡ str "unknown")

get-Memᴰ : (k : Text) (m : List (Text × Text)) (v : Text) → get k m ≡ some v → Memᴰ (k, v) m
unfolding get
get-Memᴰ k [] v h = cc
get-Memᴰ k ((j, w) ∷ m) v h = elim (Bool-cases (text_eq j k)) [
  | inl hit ↦ Memᴰ.head (ground (arith, text_eq_iff j k))
  | inr miss ↦ Memᴰ.tail (get-Memᴰ k m v (ground arith))
]

module _ (api : TetragonApi) where
  open api use {
    Event, get_process_exec, get_process_exit, get_process_kprobe, get_process_tracepoint,
  }

  pub detect_event_type-Detected : (e : Event) → Detected (detect_event_type api e)
  unfolding detect_event_type
  detect_event_type-Detected e = ground arith

  -- The node of an event is never the empty text.
  pub get_event_node-ne-nil : (e : Event) → get_event_node api e ≢ []
  unfolding get_event_node
  get_event_node-ne-nil e = ground arith

  -- A topic that the router gives is the value of an entry of its map, or it is "tetragon.unknown"
  -- and the map has no entry for "unknown".
  route-configured :
      (r : Router) (e : Event)
      → ((k : Text) × Memᴰ (k, route api r e) r.topics)
        ⊎ ((get (str "unknown") r.topics ≡ none) × (route api r e ≡ str "tetragon.unknown"))
  unfolding route
  route-configured r e = elim (Option-cases (get (detect_event_type api e) r.topics)) [
    | inr (t, h) ↦ inl (detect_event_type api e, rw (h, route) (get-Memᴰ _ r.topics t h))
    | inl h ↦ elim (Option-cases (get (str "unknown") r.topics)) [
      | inr (t, g) ↦ inl (str "unknown", rw (h, route) (rw (g, route) (get-Memᴰ _ r.topics t g)))
      | inl g ↦ inr (g, rw (h, route) (rw (g, route)))
    ]
  ]

  -- Under the default routing an exec, exit, kprobe or tracepoint event (tested in that order) goes
  -- to its own topic and every other event to "tetragon.unknown".
  route_default :
      (e : Event)
      → route api (new_router default_config.routing.topics) e ≡ (
          if is_some (get_process_exec e)
          then str "tetragon.process.exec"
          else if is_some (get_process_exit e)
          then str "tetragon.process.exit"
          else if is_some (get_process_kprobe e)
          then str "tetragon.syscall.kprobe"
          else if is_some (get_process_tracepoint e)
          then str "tetragon.kernel.tracepoint"
          else str "tetragon.unknown")
  unfolding route detect_event_type new_router get text_eq
  route_default e = ground arith

  -- No event reaches the topic that the default configuration keeps for process_lsm.
  route_default-ne-lsm :
      (e : Event)
      → route api (new_router default_config.routing.topics) e ≢ str "tetragon.security.lsm"
  route_default-ne-lsm e = ground (arith, route_default e)
