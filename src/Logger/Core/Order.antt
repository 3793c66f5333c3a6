-- ===== src/Logger/Core/Order.antt =====
-- The logs that go through the core of internal/logger/kafka_core.go, from Write to flushBatch.
use mathlib.Core.Path.{subst}
use mathlib.Core.List.{append-nil, append_assoc}
use tetragon_kafka_adapter.Prelude.{
  ◌≤◌, ◌≡◌, refl, ◌∙◌, sym, ap, ◌⊎◌, inl, inr, pos, Bool, true, false, List, [], ◌∷◌, ◌++◌, Option,
  none, some, Text, length, length-append, if◌then◌else◌, arith, Bool-cases,
}
use tetragon_kafka_adapter.Channel.{first}
use tetragon_kafka_adapter.Kafka.Worker.{Worker, worker_step}
use tetragon_kafka_adapter.Kafka.Worker.Batches.{
  concat, AllSizes, IsSound, handled, taken, handled-step, step-IsSound,
}
use tetragon_kafka_adapter.Logger.Core.{
  LogWorker, LogEvent, log_done, log_closed, log_tick, log_receives, log_worker, KafkaCore,
  new_kafka_core, offer, close_core,
}
use tetragon_kafka_adapter.Logger.Core.Refines.{forget_metrics, as_event, log_worker-forget}
use tetragon_kafka_adapter.Logger.Core.History.{
  LogAction, offers, worker_takes, worker_ticks, worker_sees_done, worker_sees_closed, closes_core,
  LogHistory, with_event, take_log, log_act, log_acts, new_history,
}

abbrev as_worker : LogWorker → Worker Text
as_worker w = record { batch = w.batch; flushed = w.flushed; running = w.running; metrics = [] }

logged-worker :
    (w : LogWorker) (e : LogEvent)
    → handled (as_worker (log_worker w e))
      ≡ handled (as_worker w) ++ taken (as_worker w) (as_event e)
unfolding handled
logged-worker w e =
    ap (λ v. handled (as_worker v)) (log_worker-forget (as_worker w) e)
    ∙ handled-step (pos 100) (as_worker w) (as_event e)

log_worker-IsSound :
    (w : LogWorker) (e : LogEvent)
    → IsSound (pos 100) (as_worker w)
    → IsSound (pos 100) (as_worker (log_worker w e))
log_worker-IsSound w e h =
    let v = worker_step (pos 100) (as_worker w) (as_event e) in
    let s = step-IsSound (pos 100) (as_worker w) (as_event e) (omega arith) h in
    let t : IsSound (pos 100) (as_worker (forget_metrics v)) = record {
      below = s.below;
      sizes = s.sizes;
      stopped = s.stopped;
    } in
    subst (λ u. IsSound (pos 100) (as_worker u)) (sym (log_worker-forget (as_worker w) e)) t

pub record IsOrdered (h : LogHistory) : Type 0 where
  pub whole : handled (as_worker h.shared.worker) ++ h.shared.log_ch.items ≡ h.accepted
  pub capacity : h.shared.log_ch.capacity ≡ 1000
  pub fits : length h.shared.log_ch.items ≤ 1000
  pub sound : IsSound (pos 100) (as_worker h.shared.worker)

with_event-IsOrdered :
    (h : LogHistory) (e : LogEvent)
    → taken (as_worker h.shared.worker) (as_event e) ≡ []
    → IsOrdered h
    → IsOrdered (with_event h e)
with_event-IsOrdered h e none_taken o = record {
  whole =
      ap (λ l. l ++ h.shared.log_ch.items)
        (logged-worker h.shared.worker e ∙ rw none_taken (append-nil _))
      ∙ o.whole;
  capacity = o.capacity;
  fits = o.fits;
  sound = log_worker-IsSound h.shared.worker e o.sound;
}

first-some :
    (items : List Text) (d : Text) (rest : List Text)
    → first items ≡ some (d, rest)
    → items ≡ d ∷ rest
first-some [] d rest h = cc
first-some (c ∷ items) d rest h = ground arith

take_log-IsOrdered :
    (h : LogHistory) (next : Option (Text × List Text))
    → first h.shared.log_ch.items ≡ next
    → h.shared.worker.running ≡ true
    → IsOrdered h
    → IsOrdered (take_log h next)
take_log-IsOrdered h none e going o = o
take_log-IsOrdered h (some (d, rest)) e going o =
    let w = h.shared.worker in
    let same : h.shared.log_ch.items ≡ d ∷ rest = first-some h.shared.log_ch.items d rest e in
    record {
      whole =
          ap (λ l. l ++ rest) (logged-worker w (log_receives d) ∙ rw going refl)
          ∙ append_assoc (handled (as_worker w)) (d ∷ []) rest
          ∙ ap (λ l. handled (as_worker w) ++ l) (sym same)
          ∙ o.whole;
      capacity = o.capacity;
      fits = let l : length (d ∷ rest) ≤ 1000 = rw same at o.fits in omega arith;
      sound = log_worker-IsSound w (log_receives d) o.sound;
    }

offer-IsOrdered :
    (h : LogHistory) (d : Text) (picks_send : Bool)
    → IsOrdered h
    → IsOrdered (log_act h (offers d picks_send))
unfolding log_act offer
offer-IsOrdered h d picks_send o = record {
  whole = ground (
    arith,
    o.whole,
    append_assoc (handled (as_worker h.shared.worker)) h.shared.log_ch.items (d ∷ []),
  );
  capacity = ground (arith, o.capacity);
  fits = ground (arith, o.fits, o.capacity, length-append h.shared.log_ch.items (d ∷ []));
  sound = ground (arith, o.sound);
}

closed-IsOrdered :
    (h : LogHistory) (core : KafkaCore) → IsOrdered h → IsOrdered (log_act h (closes_core core))
unfolding log_act close_core
closed-IsOrdered h core o = record {
  whole = ground (arith, o.whole);
  capacity = ground (arith, o.capacity);
  fits = ground (arith, o.fits);
  sound = ground (arith, o.sound);
}

if-IsOrdered :
    (b : Bool) (x y : LogHistory)
    → (b ≡ true → IsOrdered x)
    → IsOrdered y
    → IsOrdered (if b then x else y)
if-IsOrdered true x y f g = f refl
if-IsOrdered false x y f g = g

seen_closed-IsOrdered :
    (h : LogHistory) (next : Option (Text × List Text))
    → IsOrdered h
    → IsOrdered (elim next [
      | none ↦ if h.shared.log_ch.closed then with_event h log_closed else h
      | some n ↦ h
    ])
seen_closed-IsOrdered h none o =
    if-IsOrdered h.shared.log_ch.closed _ h (λ _. with_event-IsOrdered h log_closed refl o) o
seen_closed-IsOrdered h (some n) o = o

log_act-IsOrdered : (h : LogHistory) (a : LogAction) → IsOrdered h → IsOrdered (log_act h a)
unfolding log_act
log_act-IsOrdered h (offers d picks_send) o = offer-IsOrdered h d picks_send o
log_act-IsOrdered h worker_takes o =
    let next = first h.shared.log_ch.items in
    if-IsOrdered h.shared.worker.running (take_log h next) h
      (λ going. take_log-IsOrdered h next refl going o) o
log_act-IsOrdered h worker_ticks o = with_event-IsOrdered h log_tick refl o
log_act-IsOrdered h worker_sees_done o =
    if-IsOrdered h.shared.cancelled _ h (λ _. with_event-IsOrdered h log_done refl o) o
log_act-IsOrdered h worker_sees_closed o = seen_closed-IsOrdered h (first h.shared.log_ch.items) o
log_act-IsOrdered h (closes_core core) o = closed-IsOrdered h core o

log_acts-IsOrdered :
    (h : LogHistory) (acts : List LogAction) → IsOrdered h → IsOrdered (log_acts h acts)
unfolding log_acts
log_acts-IsOrdered h [] o = o
log_acts-IsOrdered h (a ∷ acts) o = log_acts-IsOrdered (log_act h a) acts (log_act-IsOrdered h a o)

new_history-IsOrdered : IsOrdered new_history
unfolding new_history new_kafka_core handled concat
new_history-IsOrdered = record {
  whole = refl;
  capacity = refl;
  fits = omega arith;
  sound = record { below = omega arith; sizes = tt; stopped = λ e. cc };
}

-- After any sequence of selects of Write and of the worker and of calls of Close, from a new core:
-- the batches that the worker flushed, then the one it gathers, then what waits in the channel, are
-- exactly the messages that Write put in, in order; at most 1000 wait; every flushed batch has
-- between 1 and 100 messages; and once the worker has returned, what it has not flushed still waits
-- in the channel.
pub log_acts-ordered :
    (acts : List LogAction)
    → let h = log_acts new_history acts in
      let w = h.shared.worker in
      (concat w.flushed ++ w.batch ++ h.shared.log_ch.items ≡ h.accepted)
      × (length h.shared.log_ch.items ≤ 1000)
      × AllSizes (pos 100) w.flushed
      × ((w.running ≡ true) ⊎ (concat w.flushed ++ h.shared.log_ch.items ≡ h.accepted))
unfolding handled
log_acts-ordered acts =
    let o = log_acts-IsOrdered new_history acts new_history-IsOrdered in
    let h = log_acts new_history acts in
    let w = h.shared.worker in
    let whole : concat w.flushed ++ w.batch ++ h.shared.log_ch.items ≡ h.accepted = o.whole in
    (
      whole,
      o.fits,
      o.sound.sizes,
      elim (Bool-cases w.running) [
        | inl going ↦ inl going
        | inr over ↦ inr (
            let e : w.batch ≡ [] = o.sound.stopped over in
            ground (arith, append-nil (concat w.flushed)))
      ],
    )
