-- ===== src/Kafka.antt =====
-- internal/kafka: partition keys, the producer, the batching writer, and the topics.
pub mod PartitionKey
pub mod Producer
pub mod Writer
pub mod Flush
pub mod Pool
pub mod Worker
pub mod TopicAdmin
