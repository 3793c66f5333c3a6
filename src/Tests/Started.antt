-- ===== src/Tests/Started.antt =====
-- What the start of the service makes in the default configuration.
use tetragon_kafka_adapter.Prelude.{pos, ◌≡◌, refl, true, false, List, some, Text}
use tetragon_kafka_adapter.Channel.{make}
use tetragon_kafka_adapter.Config.Default.{default_config}
use tetragon_kafka_adapter.Config.Sound.{validate_iff}
use tetragon_kafka_adapter.Queue.{new_queue}
use tetragon_kafka_adapter.Kafka.Producer.{new_producer}
use tetragon_kafka_adapter.Kafka.Writer.{Writer, new_writer}
use tetragon_kafka_adapter.Consumer.Startup.{
  runs, Service, start_service, started_with, assembled, ensured, checked, connected,
}
use tetragon_kafka_adapter.Tests.Samples.{SampleEvent, same_unicode}
use tetragon_kafka_adapter.Tests.Configuration.{list_admin, default-IsValid}
use tetragon_kafka_adapter.Tests.Logging.{never_equal}
use tetragon_kafka_adapter.Tests.Service.{reachable, plain_client, connects_plainly}

abbrev pub serving_writer : Writer SampleEvent
serving_writer = record { message_ch = make 36000; workers = pos 12; closed_once = false }

abbrev pub serving : Service SampleEvent (List Text)
serving =
    assembled same_unicode never_equal list_admin SampleEvent reachable default_config plain_client
      (record { ch = make 50000; drop_if_queue_full = true; stopped = false })
      (ensured same_unicode never_equal list_admin SampleEvent reachable default_config)
      (new_producer true default_config.kafka) (some serving_writer) (make 50000)

pub start_service-serving :
    start_service same_unicode never_equal list_admin SampleEvent reachable (some default_config)
    ≡ runs serving
unfolding start_service started_with new_queue new_writer new_producer
start_service-serving =
    let valid = (validate_iff same_unicode default_config).1 default-IsValid in
    rw (valid, connects_plainly, checked, connected) refl
