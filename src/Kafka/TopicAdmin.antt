-- ===== src/Kafka/TopicAdmin.antt =====
-- internal/kafka/topic_admin.go. The cluster and its client (sarama.ClusterAdmin) are outside the
-- repository, so their state and calls are a parameter.
pub mod Ensure
use tetragon_kafka_adapter.Prelude.{
  ℕ, suc, ◌-◌, ◌%◌, ◌^◌, ℤ, pos, negsuc, word, Bool, true, false, List, [], ◌∷◌, ◌++◌, Option, none,
  some, Text, str, one_of, decimal_ℤ, ltb, if◌then◌else◌, Option,
}
use tetragon_kafka_adapter.Metrics.{Metric, topic_create}
use tetragon_kafka_adapter.Config.{TopicAdminConfig}

pub record TopicDetail : Type 0 where
  pub num_partitions : ℤ
  pub replication_factor : ℤ
  pub config_entries : List (Text × Text)

pub record ClusterAdmin : Type 1 where
  pub Cluster : Type 0
  -- The names of the topics, or an error.
  pub list_topics : Cluster → Option (List Text)
  -- Whether the topic was created, and the cluster afterwards.
  pub create_topic : Cluster → Text → TopicDetail → Bool × Cluster

pub data AdminError : Type 0 where
  list_failed create_failed : AdminError

-- int32(n) of an int.
abbrev int32 : ℤ → ℤ
int32 n = let w = word n % 2 ^ 32 in if ltb w (2 ^ 31) then pos w else negsuc (2 ^ 32 - 1 - w)

abbrev replication : Option ℤ → ℤ
replication none = negsuc 0
replication (some n) = n

unfoldable pub topic_detail : TopicAdminConfig → TopicDetail
topic_detail cfg = record {
  num_partitions = int32 cfg.partitions;
  replication_factor = replication cfg.replication_factor;
  config_entries =
      (str "cleanup.policy", cfg.cleanup_policy)
      ∷ (str "min.cleanable.dirty.ratio", cfg.min_cleanable_dirty_ratio)
      ∷ (str "segment.ms", str "3600000")
      ∷ (str "retention.ms", decimal_ℤ cfg.retention_ms)
      ∷ [];
}

module _ (admin : ClusterAdmin) where
  open admin use {Cluster, list_topics, create_topic}

  -- CreateTopic and what follows it.
  abbrev pub created : Bool × Cluster → Option AdminError × Cluster × List Metric
  created (true, c) = (none, c, topic_create (str "success") ∷ [])
  created (false, c) = (some create_failed, c, topic_create (str "failed") ∷ [])

  unfoldable pub create_compacted_topic :
      TopicAdminConfig → Cluster → Text → Option AdminError × Cluster × List Metric
  create_compacted_topic cfg c topic = elim (list_topics c) [
    | none ↦ (some list_failed, c, [])
    | some names ↦
        if one_of topic names
        then (none, c, topic_create (str "skipped") ∷ [])
        else created (create_topic c topic (topic_detail cfg))
  ]

  -- The loop of EnsureTopics: the number of topics without an error, the cluster, the metrics.
  unfoldable pub ensure_loop : TopicAdminConfig → Cluster → List Text → ℕ × Cluster × List Metric
  ensure_loop cfg c [] = (0, c, [])
  ensure_loop cfg c (topic ∷ topics) =
      let (e, c', ms) = create_compacted_topic cfg c topic in
      let (n, c'', ms') = ensure_loop cfg c' topics in
      ((elim e [ none ↦ suc n | some x ↦ n ]), c'', ms ++ ms')

  -- EnsureTopics: its error, which is always nil, with the success count that it logs.
  unfoldable pub ensure_topics :
      TopicAdminConfig → Cluster → List Text → Option AdminError × ℕ × Cluster × List Metric
  ensure_topics cfg c topics =
      let (n, c', ms) = ensure_loop cfg c topics in
      if cfg.auto_create then (none, n, c', ms) else (none, 0, c, [])
