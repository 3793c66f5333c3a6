-- ===== src/Tests/Samples.antt =====
-- The values at which the tests run.
use tetragon_kafka_adapter.Prelude.{
  ℕ, zero, suc, ℤ, pos, Bool, true, false, List, [], ◌∷◌, Option, none, some, Text, str,
}
use tetragon_kafka_adapter.Tetragon.{TetragonApi, Envelope}
use tetragon_kafka_adapter.Config.Default.{default_config}
use tetragon_kafka_adapter.Router.{Router}
use tetragon_kafka_adapter.Channel.{make}
use tetragon_kafka_adapter.Queue.{Queue}
use tetragon_kafka_adapter.Kafka.Writer.{Message, Writer}
use tetragon_kafka_adapter.Pipeline.{Codecs}

-- A process of a sample event: its pid, binary and namespace.
pub record SampleProcess : Type 0 where
  pub pid : ℕ
  pub binary : Text
  pub namespace : Text

pub record SampleEvent : Type 0 where
  pub kind : ℕ
  pub process : SampleProcess
  pub node : Text
  pub time : ℤ

abbrev pub envelope_if : ℕ → ℕ → SampleProcess → Option (Envelope SampleProcess)
envelope_if zero zero p = some (record { process = some p; parent = none })
envelope_if zero (suc k) p = none
envelope_if (suc n) zero p = none
envelope_if (suc n) (suc k) p = envelope_if n k p

abbrev pub is_four : ℕ → Bool
is_four (suc (suc (suc (suc zero)))) = true
is_four _ = false

-- Kinds 0 to 3 are exec, exit, kprobe and tracepoint, 4 is a test event, others have no message.
abbrev pub sample_api : TetragonApi
sample_api = record {
  Event = SampleEvent;
  Process = SampleProcess;
  Pod = Text;
  get_process_exec = λ e. envelope_if 0 e.kind e.process;
  get_process_exit = λ e. envelope_if 1 e.kind e.process;
  get_process_kprobe = λ e. envelope_if 2 e.kind e.process;
  get_process_tracepoint = λ e. envelope_if 3 e.kind e.process;
  has_test = λ e. is_four e.kind;
  get_node_name = λ e. e.node;
  get_time = λ e. some e.time;
  get_pid = λ p. some p.pid;
  get_binary = λ p. p.binary;
  get_pod = λ p. some p.namespace;
  get_namespace = λ pod. pod;
  get_name = λ pod. str "web-0";
  get_container = λ pod. none;
}

abbrev pub shell : SampleProcess
shell = record { pid = 4711; binary = str "/bin/sh"; namespace = str "prod" }

abbrev pub exec_event : SampleEvent
exec_event = record { kind = 0; process = shell; node = str "node-1"; time = pos 1700000000 }

abbrev pub test_event : SampleEvent
test_event = record { kind = 4; process = shell; node = []; time = pos 1700000001 }

abbrev pub same_unicode : Text → Text
same_unicode s = s

abbrev pub sample_sha256 : Text → Text
sample_sha256 s = str "0123456789abcdef0123456789abcdef0123456789abcdef0123456789abcdef"

abbrev pub sample_codecs : Codecs SampleEvent
sample_codecs = record {
  marshal_json = λ e. some (str "{}");
  marshal_proto = λ e. none;
  to_json = λ s. some s.type;
  rfc3339 = λ t. str "2023-11-14T22:13:20Z";
  sha256 = sample_sha256;
}

abbrev pub sample_router : Router
sample_router = record { topics = default_config.routing.topics }

abbrev pub sample_random : Text
sample_random = 1 ∷ 2 ∷ 3 ∷ 4 ∷ 5 ∷ 6 ∷ 7 ∷ 8 ∷ 9 ∷ 10 ∷ 11 ∷ 12 ∷ 13 ∷ 14 ∷ 15 ∷ 16 ∷ []

abbrev pub sample_message : Text → Message SampleEvent
sample_message trace = record {
  event = some exec_event;
  event_type = str "process_exec";
  content_type = [];
  topic = str "tetragon.process.exec";
  key = str "node-1:process_exec";
  value = str "{}";
  trace_id = trace;
}

abbrev pub sample_batch : List (Message SampleEvent)
sample_batch = sample_message (str "a") ∷ sample_message (str "b") ∷ sample_message (str "c") ∷ []

abbrev pub sample_writer : Writer SampleEvent
sample_writer = record { message_ch = make 2; workers = pos 1; closed_once = false }

-- A queue of two places, in drop mode or in block mode, with one event waiting.
abbrev pub sample_queue : Bool → Queue ℕ
sample_queue drops = record {
  ch = record { capacity = 2; items = 7 ∷ []; closed = false };
  drop_if_queue_full = drops;
  stopped = false;
}
