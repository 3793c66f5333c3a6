-- ===== src/Consumer/Flow/Pools.antt =====
-- The writer's part of the goroutines of cmd/consumer/main.go: writeToKafka writes to it, and its
-- workers run.
use mathlib.Core.Path.{subst}
use mathlib.Core.List.{append-nil}
use tetragon_kafka_adapter.Prelude.{
  ℤ, ◌≡◌, ◌≢◌, refl, ◌∙◌, sym, ap, inl, inr, Bool, true, false, List, [], ◌∷◌, ◌++◌, Option, none,
  some, Text, length, drop, arith, Option-cases, Bool-cases, str,
}
use tetragon_kafka_adapter.Prelude.Every.{All, append-All}
use tetragon_kafka_adapter.Channel.{has_room}
use tetragon_kafka_adapter.Metrics.{drops}
use tetragon_kafka_adapter.Config.{StreamConfig, PartitionKeyConfig, SchemaConfig}
use tetragon_kafka_adapter.Tetragon.{TetragonApi}
use tetragon_kafka_adapter.Router.{Router}
use tetragon_kafka_adapter.Schema.{EventSchema}
use tetragon_kafka_adapter.Normalize.{normalize}
use tetragon_kafka_adapter.Kafka.Writer.{Message, Writer, write, written, queue_full, panics}
use tetragon_kafka_adapter.Kafka.Pool.{
  Pool, add_written, write_pool, Step, writes, closes, cancelled, ticks, measures, takes,
  finds_closed, Reach, here, next,
}
use tetragon_kafka_adapter.Pipeline.{
  Codecs, Handled, wrote, serialize, message_of, write_value, write_event,
}
use tetragon_kafka_adapter.Consumer.Flow.{
  Flow, with_writer, read_into, processed, written_out, reads, looks, finds_cancelled,
  ends_processing, ends_writing, counts_in, counts_out, reopens, cancels, receives_event, processes,
  pops, writes_event, works, FlowReach, stays, steps,
}

pub drop_all {ℓ} : {A : Type ℓ} (xs : List A) → drop (length xs) xs ≡ []
drop_all [] = refl
drop_all (x ∷ xs) = drop_all xs

pub drop_whole {ℓ} : {A : Type ℓ} (xs ys : List A) → drop (length xs) (xs ++ ys) ≡ ys
drop_whole [] ys = refl
drop_whole (x ∷ xs) ys = drop_whole xs ys

module _ {E : Type 0} where
  -- A call of Write on an open writer, as main's goroutines see it.
  pub data Written (p : Pool E) (e : E) (h : Handled) (w : Option (Writer E)) : Type 0 where
    passes :
        (m : Message E)
        → m.event ≡ some e
        → h ≡ wrote written
        → w
          ≡ some (record p.writer {
            message_ch = record p.writer.message_ch { items = p.writer.message_ch.items ++ m ∷ [] };
          })
        → with_writer p w ≡ write_pool p m
        → Written p e h w
    stops : h ≢ wrote written → h ≢ wrote panics → with_writer p w ≡ p → Written p e h w

  pub same_writer : (p : Pool E) → with_writer p (some p.writer) ≡ p
  same_writer p =
      ap (λ l. record p { accepted = l })
        (ap (λ l. p.accepted ++ l) (drop_all p.writer.message_ch.items) ∙ append-nil p.accepted)

  put_last : Writer E → Message E → Writer E
  put_last w m = record w {
    message_ch = record w.message_ch { items = w.message_ch.items ++ m ∷ [] };
  }

  write_room :
      (w : Writer E) (m : Message E)
      → w.message_ch.closed ≡ false
      → has_room w.message_ch ≡ true
      → write w m ≡ (written, put_last w m, [])
  unfolding write put_last
  write_room w m o r = ground arith

  write_full :
      (w : Writer E) (m : Message E)
      → w.message_ch.closed ≡ false
      → has_room w.message_ch ≡ false
      → write w m ≡ (queue_full, w, drops (str "writer_queue_full") ∷ [])
  unfolding write
  write_full w m o r = ground arith

  passed_on :
      (p : Pool E) (m : Message E)
      → write p.writer m ≡ (written, put_last p.writer m, [])
      → with_writer p (some (write p.writer m).1) ≡ write_pool p m
  unfolding write_pool put_last
  passed_on p m w =
      ap (λ x. with_writer p (some x.1)) w
      ∙ ap (λ l. record p { writer = put_last p.writer m; accepted = p.accepted ++ l })
          (drop_whole p.writer.message_ch.items (m ∷ []))
      ∙ sym (ap (λ x. record p { writer = x.1; accepted = add_written p.accepted m x.0 }) w)

  write-Written :
      (p : Pool E) (e : E) (m : Message E)
      → m.event ≡ some e
      → p.writer.message_ch.closed ≡ false
      → Written p e (wrote (write p.writer m).0) (some (write p.writer m).1)
  unfolding put_last
  write-Written p e m same o = elim (Bool-cases (has_room p.writer.message_ch)) [
    | inl room ↦
        let w = write_room p.writer m o room in
        passes m same (ap (λ x. wrote x.0) w) (ap (λ x. some x.1) w) (passed_on p m w)
    | inr full ↦
        let w = write_full p.writer m o full in
        stops (rw w (λ h. cc)) (rw w (λ h. cc))
          (ap (λ x. with_writer p (some x.1)) w ∙ same_writer p)
  ]

  -- What holds of the accepted messages and of one more holds after its Write.
  pub write-accepted :
      (P : Message E → Type 0) (p : Pool E) (m : Message E)
      → p.writer.message_ch.closed ≡ false
      → All P p.accepted
      → P m
      → All P (with_writer p (some (write p.writer m).1)).accepted
  unfolding put_last
  write-accepted P p m o all one = elim (Bool-cases (has_room p.writer.message_ch)) [
    | inl room ↦
        let w = write_room p.writer m o room in
        subst (λ x. All P (with_writer p (some x.1)).accepted) (sym w)
          (subst (λ l. All P (p.accepted ++ l))
            (sym (drop_whole p.writer.message_ch.items (m ∷ [])))
            (append-All P p.accepted (m ∷ []) all (one, tt)))
    | inr full ↦
        let w = write_full p.writer m o full in
        subst (λ x. All P (with_writer p (some x.1)).accepted) (sym w)
          (subst (λ x. All P x.accepted) (sym (same_writer p)) all)
  ]

module _ (api : TetragonApi) where
  open api use {Event}

  value-Written :
      (codecs : Codecs Event) (keys : PartitionKeyConfig) (r : Router) (p : Pool Event) (e : Event)
      (schema : EventSchema) (v : Option Text × Text)
      → p.writer.message_ch.closed ≡ false
      → let out = write_value api codecs keys r (some p.writer) e schema v in
        Written p e out.0 out.1
  unfolding write_value write message_of write_pool
  value-Written codecs keys r p e schema (none, t) o = stops (λ h. cc) (λ h. cc) (same_writer p)
  value-Written codecs keys r p e schema (some value, t) o = write-Written p e _ refl o

  pub write_event-Written :
      (codecs : Codecs Event) (keys : PartitionKeyConfig) (cfg : SchemaConfig) (r : Router)
      (p : Pool Event) (e : Event) (now : ℤ) (random : Text)
      → p.writer.message_ch.closed ≡ false
      → let out = write_event api codecs keys cfg r now random (some p.writer) e in
        Written p e out.0 out.1
  unfolding write_event
  write_event-Written codecs keys cfg r p e now random o =
      elim (Option-cases (normalize api codecs.marshal_json codecs.rfc3339 now random e)) [
        | inl failed ↦ rw (failed, write_event) (stops (λ h. cc) (λ h. cc) (same_writer p))
        | inr (schema, ok) ↦
            rw (ok, write_event)
              (value-Written codecs keys r p e schema (serialize api codecs cfg e schema) o)
      ]

-- A step under an uncancelled context is one under any context.
weaken : {E : Type 0} {max : ℤ} {c : Bool} {s t : Pool E} → Step max c s t → Step max true s t
weaken (writes s m o) = writes s m o
weaken (closes s) = closes s
weaken (cancelled s i w h r c) = cancelled s i w h r refl
weaken (ticks s i w h r) = ticks s i w h r
weaken (measures s i w n h r) = measures s i w n h r
weaken (takes s i w m rest h r q) = takes s i w m rest h r q
weaken (finds_closed s i w h r c q) = finds_closed s i w h r c q

Written-Reach :
    {E : Type 0} {max : ℤ} (q p : Pool E) (e : E) (h : Handled) (w : Option (Writer E))
    → p.writer.message_ch.closed ≡ false
    → Written p e h w
    → Reach max true q p
    → Reach max true q (with_writer p w)
Written-Reach {E} {max} q p e h w o (passes m same ok put_on whole) r =
    subst (λ x. Reach max true q x) (sym whole) (next r (writes p m o))
Written-Reach {E} {max} q p e h w o (stops no_write no_panic same) r =
    subst (λ x. Reach max true q x) (sym same) r

module _ (api : TetragonApi) (codecs : Codecs api.Event) (stream : StreamConfig)
    (keys : PartitionKeyConfig) (schema : SchemaConfig) (router : Router) (max : ℤ) where
  open api use {Event}

  -- The writer and its workers run as they do by themselves.
  pub FlowReach-pool :
      (s t : Flow Event)
      → FlowReach api codecs stream keys schema router max s t
      → Reach max true s.pool t.pool
  unfolding read_into processed written_out
  FlowReach-pool s t stays = here
  FlowReach-pool s t (steps r (reads u n g m k room done)) = FlowReach-pool s u r
  FlowReach-pool s t (steps r (looks u g m k)) = FlowReach-pool s u r
  FlowReach-pool s t (steps r (finds_cancelled u n g m k h)) = FlowReach-pool s u r
  FlowReach-pool s t (steps r (reopens u b g k)) = FlowReach-pool s u r
  FlowReach-pool s t (steps r (ends_processing u g h d k)) = FlowReach-pool s u r
  FlowReach-pool s t (steps r (ends_writing u x n g h d k)) = FlowReach-pool s u r
  FlowReach-pool s t (steps r (counts_in u n h)) = FlowReach-pool s u r
  FlowReach-pool s t (steps r (counts_out u n h)) = FlowReach-pool s u r
  FlowReach-pool s t (steps r (cancels u)) = FlowReach-pool s u r
  FlowReach-pool s t (steps r (receives_event u e rest g h d q)) = FlowReach-pool s u r
  FlowReach-pool s t (steps r (processes u e draw pick h b)) = FlowReach-pool s u r
  FlowReach-pool s t (steps r (pops u e q pick g h d k)) = FlowReach-pool s u r
  FlowReach-pool s t (steps r (writes_event u e now random h o b)) =
      Written-Reach s.pool u.pool e _ _ o
        (write_event-Written api codecs keys schema router u.pool e now random o)
        (FlowReach-pool s u r)
  FlowReach-pool s t (steps r (works u p x a)) = next (FlowReach-pool s u r) (weaken x)
