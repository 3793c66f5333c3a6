-- ===== src/Consumer/Startup.antt =====
-- main of cmd/consumer/main.go up to the wait for a signal. What files, the network and Kafka do is
-- the caller's `Surroundings`. The HTTP servers' listening, the sleeps and the logs are left out; the
-- order in which Go ranges over the map of topics is that of the list.
pub mod Safe
use tetragon_kafka_adapter.Prelude.{
  ℤ, pos, negsuc, Bool, true, false, List, [], ◌∷◌, ◌++◌, map, Option, none, some, Text,
  if◌then◌else◌,
}
use tetragon_kafka_adapter.Channel.{Channel, make}
use tetragon_kafka_adapter.Metrics.{Metric}
use tetragon_kafka_adapter.Config.{Config}
use tetragon_kafka_adapter.Config.Validator.{ConfigError, validate}
use tetragon_kafka_adapter.Logger.{Logger, Machine, service_logger}
use tetragon_kafka_adapter.Grpc.Client.{
  ClientError, Result, ok, err, Environment, Client, new_client,
}
use tetragon_kafka_adapter.Queue.{Queue, new_queue}
use tetragon_kafka_adapter.Router.{Router, new_router}
use tetragon_kafka_adapter.Health.{Server, new_server, set_ready}
use tetragon_kafka_adapter.Kafka.TopicAdmin.{ClusterAdmin, ensure_topics}
use tetragon_kafka_adapter.Kafka.Producer.{Producer, new_producer}
use tetragon_kafka_adapter.Kafka.Writer.{Writer, new_writer}

-- Why main ends before it serves. A panic is a `make` of a negative size.
pub data Exit : Type 0 where
  load_failed : Exit
  invalid_config : ConfigError → Exit
  client_failed : ClientError → Exit
  admin_failed panics : Exit

pub data Start (A : Type 0) : Type 0 where
  runs : A → Start A
  exits : Exit → Start A

infixl 5 ◌>>=◌
abbrev ◌>>=◌ : {A B : Type 0} → Start A → (A → Start B) → Start B
runs a >>= f = f a
exits e >>= f = exits e

abbrev pub or_exit : {A : Type 0} → Exit → Option A → Start A
or_exit e none = exits e
or_exit e (some a) = runs a

pub record Service (Event Cluster : Type 0) : Type 0 where
  pub logger : Logger
  pub client : Client
  pub queue : Queue Event
  pub router : Router
  pub cluster : Cluster
  pub health : Option Server
  pub producer : Option Producer
  pub writer : Option (Writer Event)
  pub grpc_event_ch : Channel Event
  pub metrics : List Metric

abbrev pub checked : (Text → Text) → Config → Start Config
checked unicode cfg = elim (validate unicode cfg) [
  | none ↦ runs cfg
  | some e ↦ exits (invalid_config e)
]

abbrev pub connected : Environment → Config → Start Client
connected env cfg = elim (new_client env cfg.tetragon) [
  | ok c ↦ runs c
  | err e ↦ exits (client_failed e)
]

abbrev pub make_events : {A : Type 0} → ℤ → Start (Channel A)
make_events (pos n) = runs (make n)
make_events (negsuc n) = exits panics

abbrev pub health_of : Config → Option Server
health_of cfg = if cfg.monitoring.enabled then some (set_ready false new_server) else none

abbrev pub readied : Option Server → Option Server
readied none = none
readied (some s) = some (set_ready true s)

abbrev is_some : {A : Type 0} → Option A → Bool
is_some none = false
is_some (some a) = true

-- The writer is made only if there is a producer.
abbrev pub writer_for : {E : Type 0} → Config → Option Producer → Start (Option (Writer E))
writer_for cfg none = runs none
writer_for cfg (some p) = elim (new_writer cfg.kafka) [
  | none ↦ exits panics
  | some w ↦ runs (some w)
]

module _ (unicode : Text → Text) (fold : Text → Text → Bool) (admin : ClusterAdmin)
    (E : Type 0) where
  open admin use {Cluster}

  pub record Surroundings : Type 0 where
    pub machine : Machine
    pub grpc : Environment
    -- Whether NewTopicAdmin and NewProducer reach a broker, and the topics there.
    pub admin_connects : Bool
    pub cluster : Cluster
    pub producer_connects : Bool

  -- An error of EnsureTopics is only logged.
  abbrev pub ensured : Surroundings → Config → Cluster × List Metric
  ensured s cfg =
      let (e, n, c, ms) =
        ensure_topics admin cfg.kafka.topic_admin s.cluster (map (λ t. t.1) cfg.routing.topics) in
      (c, ms)

  abbrev pub with_topics : Surroundings → Config → Start (Cluster × List Metric)
  with_topics s cfg =
      if cfg.kafka.topic_admin.auto_create
      then (if s.admin_connects then runs (ensured s cfg) else exits admin_failed)
      else runs (s.cluster, [])

  abbrev pub assembled :
      Surroundings
      → Config
      → Client
      → Queue E
      → Cluster × List Metric
      → Option Producer × List Metric
      → Option (Writer E)
      → Channel E
      → Service E Cluster
  assembled s cfg client queue topics made writer events = record {
    logger = service_logger unicode fold s.machine cfg.logger (is_some made.0);
    client = client;
    queue = queue;
    router = new_router cfg.routing.topics;
    cluster = topics.0;
    health = readied (health_of cfg);
    producer = made.0;
    writer = writer;
    grpc_event_ch = events;
    metrics = topics.1 ++ made.1;
  }

  -- The components in the order of main; the first that fails ends it.
  unfoldable pub started_with :
      Surroundings
      → Config
      → Start Client
      → Start (Queue E)
      → Start (Cluster × List Metric)
      → Option Producer × List Metric
      → Start (Option (Writer E))
      → Start (Channel E)
      → Start (Service E Cluster)
  started_with s cfg client queue topics made writer events = do
    client ← client
    queue ← queue
    topics ← topics
    writer ← writer
    events ← events
    runs (assembled s cfg client queue topics made writer events)

  -- `loaded` is the configuration that Load returns, if it returns one.
  unfoldable pub start_service : Surroundings → (loaded : Option Config) → Start (Service E Cluster)
  start_service s loaded = do
    cfg ← or_exit load_failed loaded
    cfg ← checked unicode cfg
    let made = new_producer s.producer_connects cfg.kafka
    started_with s cfg (connected s.grpc cfg) (or_exit panics (new_queue cfg.tetragon.stream))
        (with_topics s cfg) made (writer_for cfg made.0) (make_events cfg.tetragon.stream.max_queue)
