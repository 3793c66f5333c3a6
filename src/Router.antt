-- ===== src/Router.antt =====
-- internal/router/detect.go and internal/router/router.go. Log calls are left out.
pub mod Topics
use tetragon_kafka_adapter.Prelude.{
  Bool, List, Option, none, some, Text, str, is_empty, get, if◌then◌else◌,
}
use tetragon_kafka_adapter.Tetragon.{TetragonApi, is_some}

pub record Router : Type 0 where
  pub topics : List (Text × Text)

unfoldable pub new_router : List (Text × Text) → Router
new_router topics = record { topics = topics }

unfoldable pub get_dlq_topic : Router → Text
get_dlq_topic r = elim (get (str "dlq") r.topics) [ none ↦ str "tetragon.dlq" | some topic ↦ topic ]

module _ (api : TetragonApi) where
  open api use {
    Event, get_process_exec, get_process_exit, get_process_kprobe, get_process_tracepoint, has_test,
    get_node_name,
  }

  unfoldable pub detect_event_type : Event → Text
  detect_event_type e =
      if is_some (get_process_exec e)
      then str "process_exec"
      else if is_some (get_process_exit e)
      then str "process_exit"
      else if is_some (get_process_kprobe e)
      then str "process_kprobe"
      else if is_some (get_process_tracepoint e)
      then str "process_tracepoint"
      else if has_test e
      then str "test"
      else str "unknown"

  unfoldable pub get_event_node : Event → Text
  get_event_node e = if is_empty (get_node_name e) then str "unknown" else get_node_name e

  unfoldable pub route : Router → Event → Text
  route r e = elim (get (detect_event_type e) r.topics) [
    | some topic ↦ topic
    | none ↦ elim (get (str "unknown") r.topics) [
      | some topic ↦ topic
      | none ↦ str "tetragon.unknown"
    ]
  ]
