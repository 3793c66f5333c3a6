-- ===== src/Kafka/TopicAdmin/Ensure.antt =====
-- What EnsureTopics of internal/kafka/topic_admin.go says of the topics that it could not ensure.
use tetragon_kafka_adapter.Prelude.{
  ℕ, suc, ◌+◌, ◌≡◌, List, [], ◌∷◌, ◌++◌, Option, none, some, Text, text_eq, arith, if◌then◌else◌,
}
use tetragon_kafka_adapter.Config.{TopicAdminConfig}
use tetragon_kafka_adapter.Metrics.{Metric, topic_create}
use tetragon_kafka_adapter.Kafka.TopicAdmin.{ClusterAdmin, create_compacted_topic}

-- What the metrics say under one status.
unfoldable pub status_count : Text → List Metric → ℕ
status_count status [] = 0
status_count status (topic_create s ∷ ms) =
    let n = status_count status ms in if text_eq s status then suc n else n
status_count status (m ∷ ms) = status_count status ms

pub status_count-append :
    (status : Text) (xs ys : List Metric)
    → status_count status (xs ++ ys) ≡ status_count status xs + status_count status ys
unfolding status_count
status_count-append status [] ys = omega arith
status_count-append status (x ∷ xs) ys = ground (arith, status_count-append status xs ys)

abbrev one_if_none : {A : Type 0} → Option A → ℕ
one_if_none none = 1
one_if_none (some a) = 0

module _ (admin : ClusterAdmin) (cfg : TopicAdminConfig) where
  open admin use {Cluster, list_topics, create_topic}

  -- The topics for which ListTopics returned an error.
  unfoldable pub unlisted : Cluster → List Text → ℕ
  unlisted c [] = 0
  unlisted c (topic ∷ topics) =
      let n = unlisted (create_compacted_topic admin cfg c topic).1 topics in
      one_if_none (list_topics c) + n
