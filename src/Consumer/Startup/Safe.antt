-- ===== src/Consumer/Startup/Safe.antt =====
-- What the start of cmd/consumer/main.go makes of a configuration.
use tetragon_kafka_adapter.Prelude.{
  ◌*◌, ◌≤◌, ◌≡◌, ◌≢◌, refl, ◌∙◌, ap, ◌⊎◌, ◌↔◌, inl, inr, ℤ, pos, negsuc, ◌≤ℤ◌, pos_part, Bool, true,
  false, List, [], Option, none, some, Text, if◌then◌else◌, Bool-cases, Option-cases, arith,
}
use tetragon_kafka_adapter.Channel.{Channel, make}
use tetragon_kafka_adapter.Metrics.{Metric}
use tetragon_kafka_adapter.Config.{Config, KafkaConfig, StreamConfig}
use tetragon_kafka_adapter.Config.Valid.{IsValid}
use tetragon_kafka_adapter.Config.Validator.{validate}
use tetragon_kafka_adapter.Config.Sound.{validate_iff}
use tetragon_kafka_adapter.Grpc.Client.{Environment, Client, ok, new_client}
use tetragon_kafka_adapter.Queue.{Queue, new_queue}
use tetragon_kafka_adapter.Health.{Server, new_server, set_ready}
use tetragon_kafka_adapter.Kafka.TopicAdmin.{ClusterAdmin}
use tetragon_kafka_adapter.Kafka.Producer.{Producer, new_producer}
use tetragon_kafka_adapter.Kafka.Writer.{Writer}
use tetragon_kafka_adapter.Kafka.Writer.Bounds.{new_writer-IsValid}
use tetragon_kafka_adapter.Consumer.Startup.{
  panics, Start, runs, exits, Service, Surroundings, ensured, assembled, with_topics, writer_for,
  make_events, connected, checked, or_exit, started_with, readied, start_service,
}

positive : (z : ℤ) → pos 1 ≤ℤ z → z ≡ pos (pos_part z)
positive (pos n) l = refl
positive (negsuc n) l = absurd (omega arith)

abbrev empty_queue : {A : Type 0} → StreamConfig → Queue A
empty_queue cfg = record {
  ch = make (pos_part cfg.max_queue);
  drop_if_queue_full = cfg.drop_if_queue_full;
  stopped = false;
}

queue_made :
    {A : Type 0} (cfg : StreamConfig)
    → pos 1 ≤ℤ cfg.max_queue
    → new_queue {A = A} cfg ≡ some (empty_queue cfg)
unfolding new_queue
queue_made {A} cfg l =
    ap
      (λ z. elim z as (λ x. Option (Queue A)) [
        | pos n ↦
            some
              (record { ch = make n; drop_if_queue_full = cfg.drop_if_queue_full; stopped = false })
        | negsuc n ↦ none
      ])
      (positive cfg.max_queue l)

-- The writer that main makes: one of the valid size if there is a producer.
pub HasWriter : {E : Type 0} → Config → Option Producer → Option (Writer E) → Type 0
HasWriter cfg none none = Unit
HasWriter cfg none (some w) = ⊥
HasWriter cfg (some p) none = ⊥
HasWriter cfg (some p) (some w) =
    (w.message_ch.capacity
      ≡ pos_part cfg.kafka.batch.max_messages * pos_part cfg.kafka.writer_workers)
    × (1 ≤ w.message_ch.capacity)

writer_made :
    (E : Type 0) (unicode : Text → Text) (cfg : Config) (p : Option Producer)
    → IsValid unicode cfg
    → (w : Option (Writer E)) × (writer_for cfg p ≡ runs w) × HasWriter cfg p w
unfolding HasWriter
writer_made E unicode cfg none v = (none, refl, tt)
writer_made E unicode cfg (some p) v =
    let (w, e, c, l, u) = new_writer-IsValid E unicode cfg v in
    (some w, rw (e, writer_for) refl, (c, l))

connected-ne-panics : (env : Environment) (cfg : Config) → connected env cfg ≢ exits panics
connected-ne-panics env cfg h = ground arith

producer_iff :
    (connects : Bool) (k : KafkaConfig) → ((new_producer connects k).0 ≡ none) ↔ (connects ≡ false)
unfolding new_producer
producer_iff true k = ((λ e. cc), λ e. cc)
producer_iff false k = ((λ e. refl), λ e. refl)

abbrev ready_server : Server
ready_server = record { ready = true; shutdown = false }

health_iff :
    (enabled : Bool)
    → (readied (if enabled then some (set_ready false new_server) else none) ≡ some ready_server)
      ↔ (enabled ≡ true)
unfolding set_ready new_server
health_iff true = ((λ e. refl), λ e. refl)
health_iff false = ((λ e. cc), λ e. cc)

module _ (unicode : Text → Text) (fold : Text → Text → Bool) (admin : ClusterAdmin)
    (E : Type 0) where
  open admin use {Cluster}

  -- What main has when it waits for a signal.
  pub IsServing : Surroundings unicode fold admin E → Config → Service E Cluster → Type 0
  IsServing s cfg v =
      (v.queue.ch ≡ make (pos_part cfg.tetragon.stream.max_queue))
      × (v.grpc_event_ch ≡ make (pos_part cfg.tetragon.stream.max_queue))
      × HasWriter cfg v.producer v.writer
      × ((v.producer ≡ none) ↔ (s.producer_connects ≡ false))
      × ((v.health ≡ some ready_server) ↔ (cfg.monitoring.enabled ≡ true))

  topics_ok :
      (s : Surroundings unicode fold admin E) (cfg : Config)
      → (cfg.kafka.topic_admin.auto_create ≡ false) ⊎ (s.admin_connects ≡ true)
      → (t : Cluster × List Metric) × (with_topics unicode fold admin E s cfg ≡ runs t)
  topics_ok s cfg (inl off) = ((s.cluster, []), rw off refl)
  topics_ok s cfg (inr connects) = elim (Bool-cases cfg.kafka.topic_admin.auto_create) [
    | inl on ↦ (ensured unicode fold admin E s cfg, simp (on, connects))
    | inr off ↦ ((s.cluster, []), rw off refl)
  ]

  started_valid :
      (s : Surroundings unicode fold admin E) (cfg : Config)
      → validate unicode cfg ≡ none
      → let made = new_producer s.producer_connects cfg.kafka in
        start_service unicode fold admin E s (some cfg)
        ≡ started_with unicode fold admin E s cfg
            (connected s.grpc cfg)
            (or_exit panics (new_queue cfg.tetragon.stream))
            (with_topics unicode fold admin E s cfg)
            made
            (writer_for cfg made.0)
            (make_events cfg.tetragon.stream.max_queue)
  unfolding start_service
  started_valid s cfg valid = rw (valid, checked) refl

  started_runs :
      (s : Surroundings unicode fold admin E) (cfg : Config) (client : Client) (queue : Queue E)
      (topics : Cluster × List Metric) (made : Option Producer × List Metric)
      (writer : Option (Writer E)) (events : Channel E)
      → started_with unicode fold admin E s cfg
          (runs client)
          (runs queue)
          (runs topics)
          made
          (runs writer)
          (runs events)
        ≡ runs (assembled unicode fold admin E s cfg client queue topics made writer events)
  unfolding started_with
  started_runs s cfg client queue topics made writer events = refl

  -- In a valid configuration, if the client can be made and, where topics are to be created, the
  -- topic admin connects, main comes to wait for a signal, whether or not the producer was made: with
  -- an empty queue and an empty event channel of max_queue places, a writer exactly if there is a
  -- producer, of max_messages for each worker and not less than one place, and a health server that is
  -- ready exactly if monitoring is enabled.
  pub start_service-runs :
      (s : Surroundings unicode fold admin E) (cfg : Config) (client : Client)
      → IsValid unicode cfg
      → new_client s.grpc cfg.tetragon ≡ ok client
      → (cfg.kafka.topic_admin.auto_create ≡ false) ⊎ (s.admin_connects ≡ true)
      → (v : Service E Cluster) × (start_service unicode fold admin E s (some cfg) ≡ runs v)
        × IsServing s cfg v
  unfolding IsServing
  start_service-runs s cfg client h c a =
      let valid = (validate_iff unicode cfg).1 h in
      let q = queue_made {A = E} cfg.tetragon.stream h.stream.queue_low in
      let (t, te) = topics_ok s cfg a in
      let made = new_producer s.producer_connects cfg.kafka in
      let (w, we, wh) = writer_made E unicode cfg made.0 h in
      let ce : connected s.grpc cfg ≡ runs client = rw (c, connected) refl in
      let qe = ap (or_exit panics) q in
      let ee =
        ap (make_events {A = E}) (positive cfg.tetragon.stream.max_queue h.stream.queue_low) in
      let events = make (pos_part cfg.tetragon.stream.max_queue) in
      let queue = empty_queue cfg.tetragon.stream in
      (
        assembled unicode fold admin E s cfg client queue t made w events,
        started_valid s cfg valid
            ∙ cc (ce, qe, te, we, ee, started_runs s cfg client queue t made w events),
        (
          refl,
          refl,
          wh,
          producer_iff s.producer_connects cfg.kafka,
          health_iff cfg.monitoring.enabled,
        ),
      )

  started_with-ne-panics :
      (s : Surroundings unicode fold admin E) (cfg : Config) (client : Start Client)
      (queue : Start (Queue E)) (topics : Start (Cluster × List Metric))
      (made : Option Producer × List Metric) (writer : Start (Option (Writer E)))
      (events : Start (Channel E))
      → client ≢ exits panics
      → queue ≢ exits panics
      → topics ≢ exits panics
      → writer ≢ exits panics
      → events ≢ exits panics
      → started_with unicode fold admin E s cfg client queue topics made writer events
        ≢ exits panics
  unfolding started_with
  started_with-ne-panics s cfg (exits e) q t made w ch hc hq ht hw he h = hc cc
  started_with-ne-panics s cfg (runs c) (exits e) t made w ch hc hq ht hw he h = hq cc
  started_with-ne-panics s cfg (runs c) (runs q) (exits e) made w ch hc hq ht hw he h = ht cc
  started_with-ne-panics s cfg (runs c) (runs q) (runs t) made (exits e) ch hc hq ht hw he h = hw cc
  started_with-ne-panics s cfg (runs c) (runs q) (runs t) made (runs w) (exits e) hc hq ht hw he h =
      he cc
  started_with-ne-panics s cfg (runs c) (runs q) (runs t) made (runs w) (runs ch) hc hq ht hw he h =
      cc

  with_topics-ne-panics :
      (s : Surroundings unicode fold admin E) (cfg : Config)
      → with_topics unicode fold admin E s cfg ≢ exits panics
  with_topics-ne-panics s cfg h = ground arith

  valid-ne-panics :
      (s : Surroundings unicode fold admin E) (cfg : Config)
      → IsValid unicode cfg
      → start_service unicode fold admin E s (some cfg) ≢ exits panics
  valid-ne-panics s cfg v =
      let q : or_exit panics (new_queue {A = E} cfg.tetragon.stream)
          ≡ runs (empty_queue cfg.tetragon.stream) =
        ap (or_exit panics) (queue_made cfg.tetragon.stream v.stream.queue_low) in
      let ch : make_events {A = E} cfg.tetragon.stream.max_queue
          ≡ runs (make (pos_part cfg.tetragon.stream.max_queue)) =
        ap make_events (positive cfg.tetragon.stream.max_queue v.stream.queue_low) in
      let made = new_producer s.producer_connects cfg.kafka in
      let (w, we, wh) = writer_made E unicode cfg made.0 v in
      rw (started_valid s cfg ((validate_iff unicode cfg).1 v)) (
        started_with-ne-panics s cfg _ _ _ made _ _ (connected-ne-panics s.grpc cfg) (λ h. cc)
          (with_topics-ne-panics s cfg) (λ h. cc) (λ h. cc))

  -- Whatever configuration is loaded and whatever the surroundings do, main makes no channel of a
  -- negative size: Validate stops every configuration that would.
  pub start_service-ne-panics :
      (s : Surroundings unicode fold admin E) (loaded : Option Config)
      → start_service unicode fold admin E s loaded ≢ exits panics
  unfolding start_service
  start_service-ne-panics s none = λ h. cc
  start_service-ne-panics s (some cfg) = elim (Option-cases (validate unicode cfg)) [
    | inl valid ↦ valid-ne-panics s cfg ((validate_iff unicode cfg).0 valid)
    | inr (e, failed) ↦ rw (failed, checked) (λ h. cc)
  ]
