-- ===== src/Consumer/Flow/Lines.antt =====
-- The events on their way through the goroutines of cmd/consumer/main.go, in a line.
use mathlib.Core.Path.{subst}
use mathlib.Core.List.{append_assoc, sublist-append_right}
use mathlib.Core.List.Sublist
use mathlib.Core.List.{Sublist}
use tetragon_kafka_adapter.Prelude.{
  ◌≡◌, refl, ◌∙◌, sym, ap, ◌⊎◌, inl, inr, Bool, List, [], ◌∷◌, ◌++◌, Option, Float64, arith,
}
use tetragon_kafka_adapter.Config.{StreamConfig}
use tetragon_kafka_adapter.Tetragon.{TetragonApi}
use tetragon_kafka_adapter.Queue.{Queue, returns, push, pop}
use tetragon_kafka_adapter.Queue.Sampler.{should_sample}
use tetragon_kafka_adapter.Kafka.Writer.{Message, Writer}
use tetragon_kafka_adapter.Kafka.Pool.{Pool}
use tetragon_kafka_adapter.Pipeline.{Handled, process_event}
use tetragon_kafka_adapter.Consumer.Flow.{Flow, with_writer}
use tetragon_kafka_adapter.Consumer.Flow.Places.{held, events_in}
use tetragon_kafka_adapter.Consumer.Flow.Pools.{drop_whole, Written, passes, stops}

module _ {E : Type 0} where
  -- Five lists one after another.
  abbrev pub row : (a w q p c : List E) → List E
  row a w q p c = a ++ (w ++ (q ++ (p ++ c)))

  -- The events on their way, those that came first at the front.
  abbrev pub line : Flow E → List E
  line s =
      row (events_in s.pool.accepted) (held s.writing) s.queue.ch.items (held s.processing)
        s.grpc_event_ch.items

  pub row-append : (a w q p c d : List E) → row a w q p c ++ d ≡ row a w q p (c ++ d)
  row-append a w q p c d =
      append_assoc a (w ++ (q ++ (p ++ c))) d
      ∙ ap (λ l. a ++ l) (append_assoc w (q ++ (p ++ c)) d)
      ∙ ap (λ l. a ++ (w ++ l)) (append_assoc q (p ++ c) d)
      ∙ ap (λ l. a ++ (w ++ (q ++ l))) (append_assoc p c d)

  pub same : {xs ys : List E} → xs ≡ ys → Sublist xs ys
  same {xs} {ys} h = subst (λ l. Sublist xs l) h (Sublist.refl xs)

  -- Without the fourth list.
  pub row-skip : (a w q p c : List E) → Sublist (row a w q [] c) (row a w q p c)
  row-skip a w q p c =
      Sublist.append (Sublist.refl a) (
        Sublist.append (Sublist.refl w)
          (Sublist.append (Sublist.refl q) (sublist-append_right p c)))

  -- Without the second list.
  pub row-forget : (a w q p c : List E) → Sublist (row a [] q p c) (row a w q p c)
  row-forget a w q p c = Sublist.append (Sublist.refl a) (sublist-append_right w (q ++ (p ++ c)))

  events_in-append :
      (xs ys : List (Message E)) → events_in (xs ++ ys) ≡ events_in xs ++ events_in ys
  unfolding events_in
  events_in-append [] ys = refl
  events_in-append (m ∷ xs) ys =
      ap (λ l. held m.event ++ l) (events_in-append xs ys)
      ∙ sym (append_assoc (held m.event) (events_in xs) (events_in ys))

  -- What the writer accepts in a call of Write.
  pub Written-accepted :
      (p : Pool E) (e : E) (h : Handled) (w : Option (Writer E))
      → Written p e h w
      → (events_in (with_writer p w).accepted ≡ events_in p.accepted ++ e ∷ [])
        ⊎ (events_in (with_writer p w).accepted ≡ events_in p.accepted)
  unfolding events_in
  Written-accepted p e h w (passes m put ok on whole) = inl (
      ap (λ o. events_in (with_writer p o).accepted) on
      ∙ ap (λ l. events_in (p.accepted ++ l)) (drop_whole p.writer.message_ch.items (m ∷ []))
      ∙ events_in-append p.accepted (m ∷ [])
      ∙ ap (λ o. events_in p.accepted ++ (held o ++ [])) put)
  Written-accepted p e h w (stops n no_panic kept) = inr (ap (λ x. events_in x.accepted) kept)

module _ (api : TetragonApi) where
  open api use {Event}

  pub process_event-items :
      (stream : StreamConfig) (draw : Float64) (done pick : Bool) (q : Queue Event) (e : Event)
      → ((process_event api stream draw done pick q e).1.ch.items ≡ q.ch.items ++ e ∷ [])
        ⊎ ((process_event api stream draw done pick q e).1.ch.items ≡ q.ch.items)
  unfolding process_event should_sample push
  process_event-items stream draw done pick q e = ground arith

  pub pop-items :
      (q : Queue Event) (done pick : Bool) (e : Event) (q' : Queue Event)
      → pop q done pick ≡ (returns e, q')
      → q.ch.items ≡ e ∷ q'.ch.items
  unfolding pop
  pop-items q done pick e q' h = ground arith
