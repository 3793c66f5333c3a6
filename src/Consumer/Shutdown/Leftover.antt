-- ===== src/Consumer/Shutdown/Leftover.antt =====
-- What the shutdown of cmd/consumer/main.go leaves in the queue, against the goroutines that run on
-- while main waits.
use mathlib.Core.List.{append_assoc, append-nil}
use tetragon_kafka_adapter.Prelude.{
  ℕ, ℤ, ◌≡◌, ◌≢◌, refl, ◌∙◌, sym, ap, ◌⊎◌, inl, inr, Bool, true, false, List, [], ◌∷◌, ◌++◌,
  Float64, length, arith,
}
use tetragon_kafka_adapter.Config.{StreamConfig, PartitionKeyConfig, SchemaConfig}
use tetragon_kafka_adapter.Tetragon.{TetragonApi}
use tetragon_kafka_adapter.Router.{Router}
use tetragon_kafka_adapter.Queue.{Queue, size, close, push}
use tetragon_kafka_adapter.Queue.Sampler.{should_sample}
use tetragon_kafka_adapter.Pipeline.{Codecs, process_event}
use tetragon_kafka_adapter.Consumer.Flow.{
  Flow, read_into, processed, written_out, looks, finds_cancelled, reads, reopens, cancels,
  receives_event, ends_processing, processes, counts_in, pops, ends_writing, writes_event,
  counts_out, works, FlowReach, stays, steps,
}
use tetragon_kafka_adapter.Consumer.Shutdown.{
  QueueWait, times_out, ticks, still_waiting, timed_out, wait_for_queue, Serving, returned,
  waits_for_queue, shut_down,
}

wait-append :
    (before ws : List QueueWait)
    → wait_for_queue before ≡ still_waiting
    → wait_for_queue (before ++ ws) ≡ wait_for_queue ws
unfolding wait_for_queue
wait-append [] ws h = refl
wait-append (times_out ∷ before) ws h = absurd (cc h)
wait-append (ticks a b ∷ before) ws h = ground (arith, wait-append before ws)

-- A tick that finds the queue not empty does not end the wait.
wait-tick :
    (n later : ℕ) (ws : List QueueWait)
    → n ≢ 0
    → wait_for_queue (ticks n later ∷ ws) ≡ wait_for_queue ws
unfolding wait_for_queue
wait-tick n later ws h = ground arith

module _ {E : Type 0} where
  append_nil_left : (xs ys : List E) → xs ++ ys ≡ [] → xs ≡ []
  append_nil_left [] ys h = refl
  append_nil_left (x ∷ xs) ys h = cc h

  length_ne_zero : (es : List E) → es ≢ [] → length es ≢ 0
  length_ne_zero [] some_left z = some_left refl
  length_ne_zero (e ∷ es) some_left z = omega arith

  size_ne_zero : (q : Queue E) → q.ch.items ≢ [] → size q ≢ 0
  unfolding size
  size_ne_zero q = length_ne_zero q.ch.items

  shut_down-going :
      (v : Serving E) (ws : List QueueWait) (left : Queue E)
      → wait_for_queue ws ≡ still_waiting
      → (shut_down v ws left).0 ≡ waits_for_queue
  unfolding shut_down
  shut_down-going v ws left h = rw (h, shut_down) refl

  shut_down-late :
      (v : Serving E) (ws : List QueueWait) (left : Queue E)
      → wait_for_queue ws ≡ timed_out
      → left.stopped ≡ false
      → let (r, v') = shut_down v ws left in
        (r ≡ returned) × (v'.queue ≡ record left { stopped = true })
  unfolding shut_down close
  shut_down-late v ws left h o = rw (h, shut_down) (rw o (refl, refl))

  -- In `t` the queue still begins with what it was in `s`, and writeToKafka has returned.
  record IsBehind (s t : Flow E) : Type 0 where
    over : t.writes_on ≡ false
    more : List E
    begins : t.queue.ch.items ≡ s.queue.ch.items ++ more
    open_still : t.queue.stopped ≡ s.queue.stopped

  Behind-same :
      (s t u : Flow E) → IsBehind s t → u.writes_on ≡ t.writes_on → u.queue ≡ t.queue → IsBehind s u
  Behind-same s t u b w q = record {
    over = w ∙ b.over;
    more = b.more;
    begins = ap (λ x. x.ch.items) q ∙ b.begins;
    open_still = ap (λ x. x.stopped) q ∙ b.open_still;
  }

  IsBehind-refl : (s : Flow E) → s.writes_on ≡ false → IsBehind s s
  IsBehind-refl s w = record {
    over = w;
    more = [];
    begins = sym (append-nil s.queue.ch.items);
    open_still = refl;
  }

  IsBehind-trans : {s t u : Flow E} → IsBehind s t → IsBehind t u → IsBehind s u
  IsBehind-trans {s} b c = record {
    over = c.over;
    more = b.more ++ c.more;
    begins = c.begins ∙ ap (◌++ c.more) b.begins ∙ append_assoc s.queue.ch.items b.more c.more;
    open_still = c.open_still ∙ b.open_still;
  }

module _ (api : TetragonApi) where
  open api use {Event}

  process_event-queue :
      (stream : StreamConfig) (draw : Float64) (done pick : Bool) (q : Queue Event) (e : Event)
      → let q' = (process_event api stream draw done pick q e).1 in
        ((q'.ch.items ≡ q.ch.items) ⊎ (q'.ch.items ≡ q.ch.items ++ e ∷ []))
        × (q'.stopped ≡ q.stopped)
  unfolding process_event should_sample push
  process_event-queue stream draw done pick q e = ground arith

  processed-IsBehind :
      (stream : StreamConfig) (s : Flow Event) (e : Event) (draw : Float64) (pick : Bool)
      → s.writes_on ≡ false
      → IsBehind s (processed api stream s e draw pick)
  unfolding processed
  processed-IsBehind stream s e draw pick w =
      let (one, same) = process_event-queue stream draw s.cancelled pick s.queue e in
      elim one [
        | inl kept ↦ record {
          over = w;
          more = [];
          begins = kept ∙ sym (append-nil s.queue.ch.items);
          open_still = same;
        }
        | inr put ↦ record { over = w; more = e ∷ []; begins = put; open_still = same }
      ]

module _ (api : TetragonApi) (codecs : Codecs api.Event) (stream : StreamConfig)
    (keys : PartitionKeyConfig) (schema : SchemaConfig) (router : Router) (max : ℤ) where
  open api use {Event}

  abbrev Run : Flow Event → Flow Event → Type 0
  Run = FlowReach api codecs stream keys schema router max

  FlowReach-IsBehind : (s t : Flow Event) → s.writes_on ≡ false → Run s t → IsBehind s t
  unfolding read_into written_out
  FlowReach-IsBehind s t w stays = IsBehind-refl s w
  FlowReach-IsBehind s t w (steps r (processes u e draw pick h b)) =
      let b' = FlowReach-IsBehind s u w r in
      IsBehind-trans b' (processed-IsBehind api stream u e draw pick b'.over)
  FlowReach-IsBehind s t w (steps r (pops u e q pick g h d k)) =
      absurd (cc (g, (FlowReach-IsBehind s u w r).over))
  FlowReach-IsBehind s t w (steps r (ends_writing u x n g h d k)) =
      absurd (cc (g, (FlowReach-IsBehind s u w r).over))
  FlowReach-IsBehind s t w (steps r (reads u n g m k room done)) =
      Behind-same s u t (FlowReach-IsBehind s u w r) refl refl
  FlowReach-IsBehind s t w (steps r (looks u g m k)) =
      Behind-same s u t (FlowReach-IsBehind s u w r) refl refl
  FlowReach-IsBehind s t w (steps r (finds_cancelled u n g m k h)) =
      Behind-same s u t (FlowReach-IsBehind s u w r) refl refl
  FlowReach-IsBehind s t w (steps r (reopens u b g k)) =
      Behind-same s u t (FlowReach-IsBehind s u w r) refl refl
  FlowReach-IsBehind s t w (steps r (ends_processing u g h d k)) =
      Behind-same s u t (FlowReach-IsBehind s u w r) refl refl
  FlowReach-IsBehind s t w (steps r (cancels u)) =
      Behind-same s u t (FlowReach-IsBehind s u w r) refl refl
  FlowReach-IsBehind s t w (steps r (receives_event u e rest g h d q)) =
      Behind-same s u t (FlowReach-IsBehind s u w r) refl refl
  FlowReach-IsBehind s t w (steps r (counts_in u n h)) =
      Behind-same s u t (FlowReach-IsBehind s u w r) refl refl
  FlowReach-IsBehind s t w (steps r (counts_out u n h)) =
      Behind-same s u t (FlowReach-IsBehind s u w r) refl refl
  FlowReach-IsBehind s t w (steps r (writes_event u e now random h o b)) =
      Behind-same s u t (FlowReach-IsBehind s u w r) refl refl
  FlowReach-IsBehind s t w (steps r (works u p x a)) =
      Behind-same s u t (FlowReach-IsBehind s u w r) refl refl

  -- The sizes that main finds at its ticks while the goroutines run from one state to another.
  pub data Watched : Flow Event → List QueueWait → Flow Event → Type 0 where
    goes_on : {s t : Flow Event} → Run s t → Watched s [] t
    looks_at :
        {s t u v : Flow Event} {ws : List QueueWait}
        → Run s t
        → Run t u
        → Watched u ws v
        → Watched s (ticks (size t.queue) (size u.queue) ∷ ws) v

  begins-some : (s t : Flow Event) → s.queue.ch.items ≢ [] → IsBehind s t → t.queue.ch.items ≢ []
  begins-some s t some_left b none_left =
      some_left (append_nil_left s.queue.ch.items b.more (sym b.begins ∙ none_left))

  Watched-IsBehind :
      {s t : Flow Event} {ws : List QueueWait} → s.writes_on ≡ false → Watched s ws t → IsBehind s t
  Watched-IsBehind {s} {t} w (goes_on r) = FlowReach-IsBehind s t w r
  Watched-IsBehind {s} w (looks_at {t = t} {u = u} r r' ws) =
      let b = FlowReach-IsBehind s t w r in
      let b' = FlowReach-IsBehind t u b.over r' in
      IsBehind-trans b (IsBehind-trans b' (Watched-IsBehind b'.over ws))

  Watched-waits :
      {s t : Flow Event} {ws : List QueueWait} (rest : List QueueWait)
      → s.writes_on ≡ false
      → s.queue.ch.items ≢ []
      → Watched s ws t
      → wait_for_queue (ws ++ rest) ≡ wait_for_queue rest
  Watched-waits rest w some_left (goes_on r) = refl
  Watched-waits {s} rest w some_left (looks_at {t = t} {u = u} {ws = ws} r r' watched) =
      let b = FlowReach-IsBehind s t w r in
      let b' = FlowReach-IsBehind t u b.over r' in
      let some_then = begins-some s t some_left b in
      wait-tick (size t.queue) (size u.queue) (ws ++ rest) (size_ne_zero t.queue some_then)
      ∙ Watched-waits rest b'.over (begins-some t u some_then b') watched

  -- If writeToKafka has returned with events in the queue, main waits for them in vain. Whatever
  -- main found at its ticks before, as long as it still waited, and whatever the other goroutines do
  -- from then on, no later tick ends the wait: it ends only when the thirty seconds have passed, and
  -- then main returns with those events still at the front of the queue.
  pub shut_down-leaves :
      (v : Serving Event) (s t : Flow Event) (before ws rest : List QueueWait)
      → wait_for_queue before ≡ still_waiting
      → s.writes_on ≡ false
      → s.queue.ch.items ≢ []
      → s.queue.stopped ≡ false
      → Watched s ws t
      → let (late, v') = shut_down v (before ++ (ws ++ times_out ∷ rest)) t.queue in
        ((shut_down v (before ++ ws) t.queue).0 ≡ waits_for_queue)
        × (late ≡ returned)
        × ((more : List Event) × (v'.queue.ch.items ≡ s.queue.ch.items ++ more))
  unfolding wait_for_queue
  shut_down-leaves v s t before ws rest waiting w some_left o watched =
      let b = Watched-IsBehind w watched in
      let going : wait_for_queue (before ++ ws) ≡ still_waiting =
        wait-append before ws waiting
        ∙ ap wait_for_queue (sym (append-nil ws))
        ∙ Watched-waits [] w some_left watched in
      let late : wait_for_queue (before ++ (ws ++ times_out ∷ rest)) ≡ timed_out =
        wait-append before (ws ++ times_out ∷ rest) waiting
        ∙ Watched-waits (times_out ∷ rest) w some_left watched in
      let ended =
        shut_down-late v (before ++ (ws ++ times_out ∷ rest)) t.queue late (b.open_still ∙ o) in
      (
        shut_down-going v (before ++ ws) t.queue going,
        ended.0,
        (b.more, ap (λ q. q.ch.items) ended.1 ∙ b.begins),
      )
