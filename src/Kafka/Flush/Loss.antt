-- ===== src/Kafka/Flush/Loss.antt =====
-- flushBatch of internal/kafka/writer.go, message by message.
use mathlib.Core.List.{append-nil, append_assoc}
use tetragon_kafka_adapter.Prelude.{
  ℕ, zero, suc, ◌+◌, ◌-◌, inl, inr, Bool-cases, if◌then◌else◌, ◌≤◌, ◌<◌, ◌≡◌, refl, ◌∙◌, ℤ, Bool,
  true, false, List, [], ◌∷◌, ◌++◌, map, Text, one_of, length, take, drop, length-map, length-take,
  length-drop, arith,
}
use tetragon_kafka_adapter.Tetragon.{TetragonApi}
use tetragon_kafka_adapter.Router.{Router}
use tetragon_kafka_adapter.Kafka.Producer.{ProducerMessage, build_message}
use tetragon_kafka_adapter.Kafka.Writer.{Message}
use tetragon_kafka_adapter.Kafka.Flush.{
  message_key, producer_message, flush_loop, flush_batch, dlq_all,
}

-- How many messages have a key that is among `keys` or that of a message before them.
unfoldable pub repeats : {E : Type 0} → List Text → List (Message E) → ℕ
repeats keys [] = 0
repeats keys (m ∷ ms) =
    if one_of (message_key m) keys then suc (repeats keys ms) else repeats (message_key m ∷ keys) ms

repeats-le-length :
    {E : Type 0} (keys : List Text) (ms : List (Message E)) → repeats keys ms ≤ length ms
unfolding repeats
repeats-le-length keys [] = omega arith
repeats-le-length keys (m ∷ ms) =
    ground (arith, repeats-le-length keys ms, repeats-le-length (message_key m ∷ keys) ms)

-- The first message of a batch repeats none.
repeats-take : {E : Type 0} (k : ℕ) (ms : List (Message E)) → repeats [] (take (suc k) ms) ≤ k
unfolding repeats one_of
repeats-take k [] = omega arith
repeats-take k (m ∷ ms) =
    omega (arith, repeats-le-length (message_key m ∷ []) (take k ms), length-take k ms)

module _ (api : TetragonApi) (now : ℤ) where
  open api use {Event}

  abbrev sent_forms : List (Message Event) → List ProducerMessage
  sent_forms = map (producer_message api now)

  loop_whole :
      (k : ℕ) (batch : List (Message Event)) (keys : List Text) (out : List ProducerMessage)
      (ms : List (Message Event))
      → length ms ≤ k
      → flush_loop api k now batch keys out ms
        ≡ record { produced = out ++ sent_forms ms; to_dlq = []; cancelled = false }
  unfolding flush_loop
  loop_whole k batch keys out [] h = rw append-nil
  loop_whole zero batch keys out (m ∷ ms) h = absurd (omega arith)
  loop_whole (suc k) batch keys out (m ∷ ms) h =
      loop_whole k batch _ (out ++ producer_message api now m ∷ []) ms (omega arith)
      ∙ simp append_assoc

  loop_cut :
      (k : ℕ) (batch : List (Message Event)) (keys : List Text) (out : List ProducerMessage)
      (ms : List (Message Event))
      → k < length ms
      → flush_loop api k now batch keys out ms ≡ record {
        produced = out ++ sent_forms (take k ms);
        to_dlq = drop (length keys + suc k - repeats keys (take (suc k) ms)) batch;
        cancelled = true;
      }
  unfolding flush_loop repeats
  loop_cut k batch keys out [] h = absurd (omega arith)
  loop_cut zero batch keys out (m ∷ ms) h = elim (Bool-cases (one_of (message_key m) keys)) [
    | inl seen ↦
        rw (seen, append-nil) (let e : length keys + 1 - 1 ≡ length keys = omega arith in rw e)
    | inr new ↦
        rw (new, append-nil) (let e : length keys + 1 - 0 ≡ suc (length keys) = omega arith in rw e)
  ]
  loop_cut (suc k) batch keys out (m ∷ ms) h = elim (Bool-cases (one_of (message_key m) keys)) [
    | inl seen ↦ rw seen (
        loop_cut k batch keys (out ++ producer_message api now m ∷ []) ms (omega arith)
        ∙ (let r = repeats keys (take (suc k) ms) in
            let e : length keys + suc k - r ≡ length keys + suc (suc k) - suc r = omega arith in
            rw e (simp append_assoc)))
    | inr new ↦ rw new (
        loop_cut k batch (message_key m ∷ keys) (out ++ producer_message api now m ∷ []) ms
          (omega arith)
        ∙ (let r = repeats (message_key m ∷ keys) (take (suc k) ms) in
            let e : suc (length keys) + suc k - r ≡ length keys + suc (suc k) - r = omega arith in
            rw e (simp append_assoc)))
  ]

  -- If the context outlasts the batch, flushBatch hands every message to the client, in order, and
  -- none to the dead letter topic.
  pub flush_batch-whole :
      (admitted : ℕ) (dlq_sends dlq_waits : ℕ → ℕ → Bool) (r : Router)
      (batch : List (Message Event))
      → length batch ≤ admitted
      → flush_batch api admitted dlq_sends dlq_waits now r batch
        ≡ (record { produced = sent_forms batch; to_dlq = []; cancelled = false }, [])
  unfolding flush_batch dlq_all
  flush_batch-whole admitted dlq_sends dlq_waits r batch h =
      rw (loop_whole admitted batch [] [] batch h, flush_batch)

  -- If the context ends after k sends, messages 0 to k - 1 are handed to the client and those from
  -- k + 1 - r onwards to the dead letter topic, where r is how many of the messages 0 to k have the
  -- key of one before them; r is at most k. So the two together get one message less than the batch
  -- has, and r more: without a repeated key message k goes to neither.
  pub flush_batch-cut :
      (k : ℕ) (dlq_sends dlq_waits : ℕ → ℕ → Bool) (r : Router) (batch : List (Message Event))
      → k < length batch
      → let f = (flush_batch api k dlq_sends dlq_waits now r batch).0 in
        let repeated = repeats [] (take (suc k) batch) in
        (f.produced ≡ sent_forms (take k batch))
        × (f.to_dlq ≡ drop (suc k - repeated) batch)
        × (repeated ≤ k)
        × (length f.produced + length f.to_dlq + 1 ≡ length batch + repeated)
  unfolding flush_batch
  flush_batch-cut k dlq_sends dlq_waits r batch h =
      let repeated = repeats [] (take (suc k) batch) in
      let below = repeats-take k batch in
      let e : 0 + suc k - repeated ≡ suc k - repeated = omega arith in
      rw (loop_cut k batch [] [] batch h, flush_batch, e)
        (
          refl,
          refl,
          below,
          omega (
            arith,
            below,
            length-map (take k batch) (producer_message api now),
            length-take k batch,
            length-drop (suc k - repeated) batch,
          ),
        )

  -- The copy of a message for another topic, by SendMessage, is the message that flushBatch builds
  -- but for the topic: key, value, timestamp and headers agree.
  build_message-producer_message :
      (topic : Text) (m : Message Event)
      → build_message api now topic m.key m.value m.event m.event_type m.content_type
        ≡ record (producer_message api now m) { topic = topic }
  unfolding build_message producer_message
  build_message-producer_message topic m = refl
