-- ===== src/Normalize.antt =====
-- internal/normalize/normalizer.go. `marshal` is protojson's Marshal with proto names, from another
-- repository; `none` is its error.
pub mod Raw
use tetragon_kafka_adapter.Prelude.{
  ℤ, false, Option, none, some, Text, str, is_empty, [], length, if◌then◌else◌,
}
use tetragon_kafka_adapter.Tetragon.{TetragonApi, is_some}
use tetragon_kafka_adapter.Schema.{EventSchema, new_event_schema, set_timestamp}

module _ (api : TetragonApi) where
  open api use {
    Event, get_process_exec, get_process_exit, get_process_kprobe, get_process_tracepoint,
    get_node_name, get_time,
  }

  unfoldable pub detect_event_type : Event → Text
  detect_event_type e =
      if is_some (get_process_exec e)
      then str "process_exec"
      else if is_some (get_process_exit e)
      then str "process_exit"
      else if is_some (get_process_kprobe e)
      then str "process_kprobe"
      else if is_some (get_process_tracepoint e)
      then str "process_tracepoint"
      else str "unknown"

  unfoldable pub get_event_node : Event → Text
  get_event_node e = if is_empty (get_node_name e) then str "unknown" else get_node_name e

  abbrev timed : (rfc3339 : ℤ → Text) → EventSchema → Option ℤ → EventSchema
  timed rfc3339 s none = s
  timed rfc3339 s (some t) = set_timestamp rfc3339 s t

  unfoldable pub normalize :
      (marshal : Event → Option Text) (rfc3339 : ℤ → Text) (now : ℤ) (random : Text)
      → Event
      → Option EventSchema
  normalize marshal rfc3339 now random e =
      let fresh = new_event_schema rfc3339 now random (detect_event_type e) in
      let schema = record (timed rfc3339 fresh (get_time e)) { node = get_event_node e } in
      elim (marshal e) [
        | none ↦ none
        | some raw ↦ some (record schema {
          raw = raw;
          raw_meta = some (record {
            format = str "json_map";
            size_bytes = length raw;
            hash = [];
            redacted = false;
          });
        })
      ]
