-- ===== src/Tests/Service.antt =====
-- The start of the service in the default configuration.
use tetragon_kafka_adapter.Prelude.{◌≡◌, ◌≢◌, refl, inr, true, List, [], none, some, Text}
use tetragon_kafka_adapter.Config.Default.{default_config}
use tetragon_kafka_adapter.Grpc.Client.{Client, ok, new_client}
use tetragon_kafka_adapter.Consumer.Startup.{
  panics, runs, exits, Service, Surroundings, start_service,
}
use tetragon_kafka_adapter.Consumer.Startup.Safe.{
  IsServing, start_service-runs, start_service-ne-panics,
}
use tetragon_kafka_adapter.Tests.Samples.{SampleEvent, same_unicode}
use tetragon_kafka_adapter.Tests.Configuration.{list_admin, default-IsValid}
use tetragon_kafka_adapter.Tests.Connections.{with_files}
use tetragon_kafka_adapter.Tests.Logging.{one_pod, never_equal}

abbrev pub reachable : Surroundings same_unicode never_equal list_admin SampleEvent
reachable = record {
  machine = one_pod;
  grpc = with_files;
  admin_connects = true;
  cluster = [];
  producer_connects = true;
}

abbrev pub plain_client : Client
plain_client = record { address = default_config.tetragon.grpc_addr; transport = none }

pub connects_plainly : new_client with_files default_config.tetragon ≡ ok plain_client
unfolding new_client
connects_plainly = refl

start_service-runs_example :
    (v : Service SampleEvent (List Text)) × (start_service same_unicode never_equal list_admin
        SampleEvent reachable
        (some default_config)
      ≡ runs v)
    × IsServing same_unicode never_equal list_admin SampleEvent reachable default_config v
start_service-runs_example =
    start_service-runs same_unicode never_equal list_admin SampleEvent reachable default_config
      plain_client default-IsValid connects_plainly (inr refl)

start_service-ne-panics_example :
    start_service same_unicode never_equal list_admin SampleEvent reachable (some default_config)
    ≢ exits panics
start_service-ne-panics_example =
    start_service-ne-panics same_unicode never_equal list_admin SampleEvent reachable
      (some default_config)
