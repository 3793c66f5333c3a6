-- ===== src/Health.antt =====
-- internal/health/server.go: the flags, the two handlers and the mux that chooses between them. The
-- lock makes each of these steps atomic. Headers and time stamps are left out.
pub mod Probe
use tetragon_kafka_adapter.Prelude.{
  ℕ, Bool, true, false, Option, none, some, List, [], ◌∷◌, Text, str, text_eq, if◌then◌else◌,
}
use tetragon_kafka_adapter.Queue.{Queue, size, capacity}

pub record Server : Type 0 where
  pub ready : Bool
  pub shutdown : Bool

pub record Response : Type 0 where
  pub code : ℕ
  -- The "status" of the body, or the whole body of a 404.
  pub status : Text
  -- "queue": depth and capacity.
  pub queue : Option (ℕ × ℕ)

unfoldable pub new_server : Server
new_server = record { ready = false; shutdown = false }

unfoldable pub set_ready : Bool → Server → Server
set_ready b s = record s { ready = b }

unfoldable pub set_shutdown : Bool → Server → Server
set_shutdown b s = record s { shutdown = b }

unfoldable pub root_handler : Text → Response
root_handler path =
    if text_eq path (str "/")
    then record { code = 200; status = str "tetragon-kafka-adapter"; queue = none }
    else record { code = 404; status = str "404 page not found"; queue = none }

module _ {ℓ} {A : Type ℓ} where
  unfoldable pub health_handler : Server → Queue A → Response
  health_handler s q =
      if s.shutdown
      then record { code = 503; status = str "shutting down"; queue = none }
      else if s.ready
      then record { code = 200; status = str "healthy"; queue = some (size q, capacity q) }
      else record { code = 503; status = str "not ready"; queue = none }

  -- http.ServeMux with the patterns "/health" and "/".
  unfoldable pub serve : Server → Queue A → Text → Response
  serve s q path = if text_eq path (str "/health") then health_handler s q else root_handler path
