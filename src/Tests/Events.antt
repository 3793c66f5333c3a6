-- ===== src/Tests/Events.antt =====
-- Events on their way from the stream to the writer: queue, router, normalizer, keys.
use tetragon_kafka_adapter.Prelude.{
  ℕ, ◌<◌, ◌≤◌, ◌≡◌, refl, ◌⊎◌, Bool, true, false, [], ◌∷◌, ◌++◌, some, pos, length, take, Float64,
}
use tetragon_kafka_adapter.Config.{StreamConfig, PartitionKeyConfig}
use tetragon_kafka_adapter.Config.Default.{default_config}
use tetragon_kafka_adapter.Queue.{Queue, new_queue, size}
use tetragon_kafka_adapter.Queue.Fifo.{pushes, pops, start, run, run-new_queue}
use tetragon_kafka_adapter.Kafka.PartitionKey.{generate_dedup_key}
use tetragon_kafka_adapter.Kafka.PartitionKey.Shape.{joined_values, generate_dedup_key-join}
use tetragon_kafka_adapter.Tests.Samples.{sample_api, exec_event, sample_sha256}

abbrev two_places : StreamConfig
two_places = record (default_config.tetragon.stream) { max_queue = pos 2 }

abbrev queue_of_two : Bool → Queue ℕ
queue_of_two dropping = record {
  ch = record { capacity = 2; items = []; closed = false };
  drop_if_queue_full = dropping;
  stopped = false;
}

new_queue_of_two : new_queue {A = ℕ} two_places ≡ some (queue_of_two two_places.drop_if_queue_full)
unfolding new_queue
new_queue_of_two = refl

run-new_queue_example :
    let l =
      run
        (start (queue_of_two two_places.drop_if_queue_full))
        (pushes false true 1 ∷ pushes false true 2 ∷ pushes false true 3 ∷ pops false true ∷ []) in
    (l.accepted ≡ l.popped ++ l.queue.ch.items) × (size l.queue ≤ 2)
run-new_queue_example =
    run-new_queue two_places (queue_of_two two_places.drop_if_queue_full)
      (pushes false true 1 ∷ pushes false true 2 ∷ pushes false true 3 ∷ pops false true ∷ [])
      new_queue_of_two

abbrev not_a_number : Float64
not_a_number = record { bits = 0x7FF8000000000001 }

abbrev default_keys : PartitionKeyConfig
default_keys = default_config.routing.partition_key

generate_dedup_key-join_example :
    ((length (joined_values sample_api exec_event default_keys) ≤ 100)
      × (generate_dedup_key sample_api sample_sha256 exec_event default_keys
          ≡ joined_values sample_api exec_event default_keys))
    ⊎ ((100 < length (joined_values sample_api exec_event default_keys))
        × (generate_dedup_key sample_api sample_sha256 exec_event default_keys
            ≡ take 32 (sample_sha256 (joined_values sample_api exec_event default_keys))))
generate_dedup_key-join_example =
    generate_dedup_key-join sample_api sample_sha256 exec_event default_keys
