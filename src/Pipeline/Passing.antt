-- ===== src/Pipeline/Passing.antt =====
-- The stages of an event's way through cmd/consumer/main.go and internal/kafka/writer.go.
use mathlib.Core.List.{append_assoc, append-nil}
use tetragon_kafka_adapter.Prelude.{
  ℕ, suc, ◌+◌, ◌≤◌, ◌<◌, ◌≡◌, ◌≢◌, refl, ◌∙◌, sym, ap, ◌⊎◌, inl, inr, ℤ, pos, ◌≤ℤ◌, Bool, true,
  false, List, [], ◌∷◌, ◌++◌, map, Option, none, some, Text, str, is_empty, length, length-append,
  leb_f, one_f, arith,
}
use tetragon_kafka_adapter.Prelude.Every.{All}
use tetragon_kafka_adapter.Config.{StreamConfig, PartitionKeyConfig, SchemaConfig}
use tetragon_kafka_adapter.Tetragon.{TetragonApi}
use tetragon_kafka_adapter.Router.{Router, detect_event_type, route}
use tetragon_kafka_adapter.Queue.{Queue, push, pop}
use tetragon_kafka_adapter.Queue.Sampler.{should_sample}
use tetragon_kafka_adapter.Schema.{generate_trace_id}
use tetragon_kafka_adapter.Kafka.PartitionKey.{generate_dedup_key}
use tetragon_kafka_adapter.Kafka.Producer.{ProducerMessage}
use tetragon_kafka_adapter.Kafka.Writer.{Message, Writer}
use tetragon_kafka_adapter.Kafka.Worker.Batches.{concat, AllSizes}
use tetragon_kafka_adapter.Kafka.Flush.{producer_message}
use tetragon_kafka_adapter.Kafka.Flush.Loss.{flush_batch-whole}
use tetragon_kafka_adapter.Pipeline.{Codecs, process_event, write_event}
use tetragon_kafka_adapter.Pipeline.Delivery.{write_event-delivers}
use tetragon_kafka_adapter.Queue.{holding}
use tetragon_kafka_adapter.Pipeline.Loops.{
  Arrival, Departure, process_events, write_to_kafka, flush_all,
}

abbrev pub events_of : {E : Type 0} → List (Arrival E) → List E
events_of = map (λ a. a.event)

abbrev pub items_of : {E : Type 0} → Option (Writer E) → List (Message E)
items_of none = []
items_of (some w) = w.message_ch.items

pub AllSizes-mono :
    {M : Type 0} (a b : ℤ) (xss : List (List M)) → a ≤ℤ b → AllSizes a xss → AllSizes b xss
AllSizes-mono a b [] l h = tt
AllSizes-mono a b (xs ∷ xss) l h = (h.0, omega (arith, h.1), AllSizes-mono a b xss l h.2)

pub other_side : {P : Type 0} (b : Bool) → b ≡ false → (b ≡ true) ⊎ P → P
other_side b h (inl running) = absurd cc
other_side b h (inr p) = p

module _ (api : TetragonApi) where
  open api use {Event, get_time}

  arrive :
      (cfg : StreamConfig) (q : Queue Event) (a : Arrival Event)
      → leb_f one_f cfg.sample_ratio ≡ true
      → q.drop_if_queue_full ≡ true
      → length q.ch.items < q.ch.capacity
      → (process_event api cfg a.draw a.done a.pick q a.event).1
        ≡ record q { ch = record q.ch { items = q.ch.items ++ a.event ∷ [] } }
  unfolding process_event should_sample push
  arrive cfg q a s d l = ground arith

  -- Where every event is sampled and the queue has room for all, all come into the queue, in order.
  pub process_events_whole :
      (cfg : StreamConfig) (q : Queue Event) (arrivals : List (Arrival Event))
      → leb_f one_f cfg.sample_ratio ≡ true
      → q.drop_if_queue_full ≡ true
      → length q.ch.items + length arrivals ≤ q.ch.capacity
      → process_events api cfg q arrivals
        ≡ record q { ch = record q.ch { items = q.ch.items ++ events_of arrivals } }
  unfolding process_events
  process_events_whole cfg q [] s d l = cc (append-nil q.ch.items)
  process_events_whole cfg q (a ∷ arrivals) s d l =
      let q' = record q { ch = record q.ch { items = q.ch.items ++ a.event ∷ [] } } in
      let room : length q'.ch.items + length arrivals ≤ q.ch.capacity =
        omega (arith, length-append q.ch.items (a.event ∷ [])) in
      ap (λ p. process_events api cfg p arrivals) (arrive cfg q a s d (omega arith))
      ∙ process_events_whole cfg q' arrivals s d room
      ∙ cc (append_assoc q.ch.items (a.event ∷ []) (events_of arrivals))

  module _ (codecs : Codecs Event) (keys : PartitionKeyConfig) (r : Router) (json : Event → Text)
      (time : Event → ℤ) where
    -- The message that the client gets for an event.
    unfoldable pub expected : Event → ProducerMessage
    expected e = record {
      topic = route api r e;
      key = generate_dedup_key api codecs.sha256 e keys;
      value = json e;
      timestamp = time e;
      headers =
          record { key = str "content-type"; value = str "application/json" }
          ∷ record { key = str "schema-version"; value = str "1" }
          ∷ record { key = str "event-type"; value = detect_event_type api e }
          ∷ [];
    }

    -- protojson gives the event's JSON, which is not empty, and the event has a time.
    abbrev pub IsPlain : Event → Type 0
    IsPlain e =
        (codecs.marshal_json e ≡ some (json e)) × (json e ≢ []) × (get_time e ≡ some (time e))

    abbrev Carries : Message Event → Event → Type 0
    Carries m e = (now : ℤ) → producer_message api now m ≡ expected e

    abbrev CarryAll : List (Message Event) → List Event → Type 0
    CarryAll [] [] = Unit
    CarryAll [] (e ∷ es) = ⊥
    CarryAll (m ∷ ms) [] = ⊥
    CarryAll (m ∷ ms) (e ∷ es) = Carries m e × CarryAll ms es

    CarryAll-append :
        (ms : List (Message Event)) (es : List Event) (m : Message Event) (e : Event)
        → CarryAll ms es
        → Carries m e
        → CarryAll (ms ++ m ∷ []) (es ++ e ∷ [])
    CarryAll-append [] [] m e h c = (c, tt)
    CarryAll-append [] (f ∷ es) m e h c = absurd h
    CarryAll-append (n ∷ ms) [] m e h c = absurd h
    CarryAll-append (n ∷ ms) (f ∷ es) m e h c = (h.0, CarryAll-append ms es m e h.1 c)

    abbrev pub message_for : Text → Text → Event → Message Event
    message_for value random e = record {
      event = some e;
      event_type = detect_event_type api e;
      content_type = str "application/json";
      topic = route api r e;
      key = generate_dedup_key api codecs.sha256 e keys;
      value = value;
      trace_id = generate_trace_id random;
    }

    some_type : (e : Event) → is_empty (detect_event_type api e) ≡ false
    unfolding detect_event_type
    some_type e = ground arith

    message_for-Carries :
        (random : Text) (e : Event) → IsPlain e → Carries (message_for (json e) random e) e
    unfolding producer_message expected
    message_for-Carries random e h now = simp (some_type e, h.2)

    put_message : Writer Event → Message Event → Writer Event
    put_message w m = record w {
      message_ch = record w.message_ch { items = w.message_ch.items ++ m ∷ [] };
    }

    depart :
        (cfg : SchemaConfig) (d : Departure) (w : Writer Event) (e : Event) (value : Text)
        → cfg.format ≢ str "protobuf"
        → codecs.marshal_json e ≡ some value
        → value ≢ []
        → w.message_ch.closed ≡ false
        → length w.message_ch.items < w.message_ch.capacity
        → (write_event api codecs keys cfg r d.now d.random (some w) e).1
          ≡ some (put_message w (message_for value d.random e))
    unfolding put_message
    depart cfg d w e [] f h v o l = absurd (v refl)
    depart cfg d w e (c ∷ rest) f h v o l =
        ap (λ x. x.1) (write_event-delivers api codecs keys cfg r d.now d.random w e c rest f h o l)

    -- Where the writer has room, as many turns as there are events empty the queue into the writer.
    pub write_to_kafka_whole :
        (cfg : SchemaConfig) (q : Queue Event) (es done : List Event) (w : Writer Event)
        (departures : List Departure)
        → cfg.format ≢ str "protobuf"
        → All IsPlain es
        → length departures ≡ length es
        → w.message_ch.closed ≡ false
        → length w.message_ch.items + length es ≤ w.message_ch.capacity
        → CarryAll w.message_ch.items done
        → (w' : Writer Event) × (write_to_kafka api codecs keys cfg r
              (holding q es)
              (some w)
              departures
            ≡ (holding q [], some w'))
          × CarryAll w'.message_ch.items (done ++ es)
    unfolding write_to_kafka pop put_message
    write_to_kafka_whole cfg q [] done w [] f h n o l c = (w, refl, rw (append-nil done) c)
    write_to_kafka_whole cfg q [] done w (d ∷ ds) f h n o l c = absurd (omega arith)
    write_to_kafka_whole cfg q (e ∷ es) done w [] f h n o l c = absurd (omega arith)
    write_to_kafka_whole cfg q (e ∷ es) done w (d ∷ ds) f h n o l c =
        let m = message_for (json e) d.random e in
        let step = depart cfg d w e (json e) f h.0.0 h.0.1 o (omega arith) in
        let room : length (put_message w m).message_ch.items + length es ≤ w.message_ch.capacity =
          omega (arith, length-append w.message_ch.items (m ∷ [])) in
        let more =
          CarryAll-append w.message_ch.items done m e c (message_for-Carries d.random e h.0) in
        let (w', run, carried) =
          write_to_kafka_whole cfg q es (done ++ e ∷ []) (put_message w m) ds f h.1 (omega arith) o
            room more in
        (
          w',
          ap (λ x. write_to_kafka api codecs keys cfg r (holding q es) x ds) step ∙ run,
          rw (sym (append_assoc done (e ∷ []) es)) carried,
        )

    split :
        (now : ℤ) (xs ys : List (Message Event)) (es : List Event)
        → CarryAll (xs ++ ys) es
        → (rest : List Event) × (map (producer_message api now) xs ++ map expected rest
            ≡ map expected es)
          × CarryAll ys rest
    split now [] ys es h = (es, refl, h)
    split now (x ∷ xs) ys [] h = absurd h
    split now (x ∷ xs) ys (e ∷ es) h =
        let (rest, eq, c) = split now xs ys es h.1 in (rest, cc (h.0 now, eq), c)

    pub flush_all_whole :
        (admitted : ℕ) (dlq_sends dlq_waits : ℕ → ℕ → Bool) (nows : ℕ → ℤ) (i : ℕ)
        (batches : List (List (Message Event))) (es : List Event)
        → AllSizes (pos admitted) batches
        → CarryAll (concat batches) es
        → flush_all api admitted dlq_sends dlq_waits nows r i batches ≡ map expected es
    unfolding flush_all concat
    flush_all_whole admitted ds dw nows i [] [] s h = refl
    flush_all_whole admitted ds dw nows i [] (e ∷ es) s h = absurd h
    flush_all_whole admitted ds dw nows i (b ∷ batches) es s h =
        let (rest, eq, c) = split (nows i) b (concat batches) es h in
        ap (λ x. x.0.produced ++ flush_all api admitted ds dw nows r (suc i) batches)
          (flush_batch-whole api (nows i) admitted ds dw r b (omega (arith, s.1)))
        ∙ ap (λ x. map (producer_message api (nows i)) b ++ x)
            (flush_all_whole admitted ds dw nows (suc i) batches rest s.2 c)
        ∙ eq
