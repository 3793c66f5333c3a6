-- ===== src/Consumer/Probes.antt =====
-- /health over the life of cmd/consumer/main.go: main sets the flags of its health server while the
-- goroutine of Start of internal/health/server.go serves. A probe is a request of /health; its answer
-- counts from the moment at which the handler reads the flags. net/http accepts from the time
-- that Start listens until Shutdown is called, and answers what it has accepted.
pub mod Turns
use tetragon_kafka_adapter.Prelude.{
  ℕ, suc, ◌≡◌, ◌≢◌, Bool, true, false, List, [], ◌∷◌, ◌++◌, Option, none, some, str, if◌then◌else◌,
}
use tetragon_kafka_adapter.Config.{Config}
use tetragon_kafka_adapter.Queue.{Queue}
use tetragon_kafka_adapter.Health.{Server, Response, serve}
use tetragon_kafka_adapter.Consumer.Startup.{health_of, readied}
use tetragon_kafka_adapter.Consumer.Shutdown.{refuses}

-- How far main has come: before SetReady(true), after it, after SetShutdown(true), and
-- after the call of Shutdown.
pub data Stage : Type 0 where
  prepares receives stops shut : Stage

pub record Life : Type 0 where
  pub stage : Stage
  pub health : Option Server
  pub listening : Bool
  -- Probes accepted and not yet answered.
  pub open_probes : ℕ
  pub answers : List Response

unfoldable pub begin : Config → Life
begin cfg = record {
  stage = prepares;
  health = health_of cfg;
  listening = false;
  open_probes = 0;
  answers = [];
}

-- Start: `listens` says whether Listen has succeeded and Serve has not failed since. Its error is only
-- logged.
unfoldable pub start : (listens : Bool) → Life → Life
start listens l = record l { listening = listens }

-- Shutdown: Serve accepts no more; what has been accepted is still answered.
unfoldable pub shutdown : Life → Life
shutdown l = record l { stage = shut }

-- `E` is the type of the events of the queue.
module _ (E : Type 0) where
  pub data LifeStep : Life → Life → Type 0 where
    starts : (l : Life) (listens : Bool) → l.health ≢ none → LifeStep l (start listens l)
    accepts :
        (l : Life)
        → l.listening ≡ true
        → l.stage ≢ shut
        → LifeStep l (record l { open_probes = suc l.open_probes })
    -- The queue is whatever the other goroutines have made of it.
    answers :
        (l : Life) (n : ℕ) (s : Server) (q : Queue E)
        → l.open_probes ≡ suc n
        → l.health ≡ some s
        → LifeStep l
            (record l { open_probes = n; answers = l.answers ++ serve s q (str "/health") ∷ [] })
    readies :
        (l : Life)
        → l.stage ≡ prepares
        → LifeStep l (record l { stage = receives; health = readied l.health })
    refuses_probes :
        (l : Life)
        → l.stage ≡ receives
        → LifeStep l (record l { stage = stops; health = refuses l.health })
    shuts_down : (l : Life) → l.stage ≡ stops → LifeStep l (shutdown l)

  pub data LifeReach (l : Life) : Life → Type 0 where
    stays : LifeReach l l
    steps : {m n : Life} → LifeReach l m → LifeStep m n → LifeReach l n
