-- ===== src/Tests/Connections.antt =====
-- The gRPC client and its streams, and the health probe.
use tetragon_kafka_adapter.Prelude.{
  ℕ, ◌≡◌, ◌⊎◌, refl, ◌≢◌, Bool, true, false, List, [], ◌∷◌, some, str, pos, length, ◌≤ℤ◌, ◌<ℤ◌,
}
use tetragon_kafka_adapter.Config.{TetragonConfig, TlsConfig, ReconnectConfig}
use tetragon_kafka_adapter.Config.Default.{default_config}
use tetragon_kafka_adapter.Grpc.Client.{
  Environment, TlsSettings, Client, ok, load_tls_config, new_client,
}
use tetragon_kafka_adapter.Grpc.Client.Tls.{UsesTls, new_client-UsesTls}
use tetragon_kafka_adapter.Grpc.Stream.{Turn, read_events}
use tetragon_kafka_adapter.Grpc.Stream.Accounting.{IsAccounted, read_events-IsAccounted}
use tetragon_kafka_adapter.Grpc.Reconnect.{
  Round, exhausted, closed_normally, new_manager, run_with_reconnect,
}
use tetragon_kafka_adapter.Grpc.Reconnect.Attempts.{schedule, run_with_reconnect-schedule}
use tetragon_kafka_adapter.Health.{Server}

-- An event is delivered, one finds the channel full, one finds the context cancelled.
abbrev turn : ℕ → Bool → Bool → Turn ℕ
turn e room done = record {
  cancelled = false;
  recv = some e;
  room = room;
  done = done;
  pick = false;
}

abbrev three_turns : List (Turn ℕ)
three_turns = turn 1 true false ∷ turn 2 false false ∷ turn 3 false true ∷ []

read_events-IsAccounted_example : IsAccounted (read_events true three_turns)
read_events-IsAccounted_example = read_events-IsAccounted true three_turns

-- The stream fails at once, and dialling fails or succeeds.
abbrev failing : Bool → Round ℕ
failing dials = record {
  cancelled_first = false;
  cancelled_second = false;
  cancelled_asleep = false;
  opens = false;
  turns = [];
  jitter_ms = 7;
  dials = dials;
}

abbrev three_times : ReconnectConfig
three_times = record (default_config.tetragon.stream.reconnect) {
  max_attempts = pos 2;
  jitter = false;
}

run_with_reconnect-schedule_example :
    let m =
      run_with_reconnect three_times new_manager
        (failing true ∷ failing false ∷ failing true ∷ []) in
    ((pos 2 ≤ℤ pos 0) ⊎ (pos (length m.backoffs) ≤ℤ pos 2))
    × ((m.status ≢ exhausted) ⊎ ((pos 0 <ℤ pos 2) × (pos (length m.backoffs) ≡ pos 2)))
    × ((false ≡ true) ⊎ (m.backoffs ≡ schedule three_times (length m.backoffs)))
    × (m.status ≢ closed_normally)
run_with_reconnect-schedule_example =
    run_with_reconnect-schedule three_times (failing true ∷ failing false ∷ failing true ∷ [])

abbrev pub with_files : Environment
with_files = record {
  read_file = λ f. some (str "pem");
  is_pem = λ pem. true;
  load_key_pair = λ cert key. some (str "pair");
  dials = true;
}

abbrev mutual_tls : TlsConfig
mutual_tls = record {
  enabled = true;
  ca_cert = str "/ca.pem";
  client_cert = str "/cert.pem";
  client_key = str "/key.pem";
}

abbrev tls_config : TetragonConfig
tls_config = record (default_config.tetragon) { tls = mutual_tls }

abbrev tls_settings : TlsSettings
tls_settings = record { root_cas = some (str "pem"); certificates = str "pair" ∷ [] }

abbrev tls_client : Client
tls_client = record { address = tls_config.grpc_addr; transport = some tls_settings }

connects_with_tls : new_client with_files tls_config ≡ ok tls_client
unfolding new_client load_tls_config
connects_with_tls = refl

new_client-UsesTls_example :
    (t : TlsSettings) × (some tls_settings ≡ some t) × UsesTls with_files mutual_tls t
new_client-UsesTls_example =
    new_client-UsesTls with_files tls_config tls_client refl connects_with_tls

abbrev ready_server : Server
ready_server = record { ready = true; shutdown = false }
