-- ===== src/Grpc/Stream/Accounting.antt =====
-- The events that ReadEvents of internal/grpc/stream.go receives.
use tetragon_kafka_adapter.Prelude.{
  ℕ, suc, ◌+◌, ◌≤◌, ◌≡◌, ◌⊎◌, ◌≢◌, Bool, true, false, List, [], ◌∷◌, ◌++◌, none, some, length,
  length-append, if◌then◌else◌, arith,
}
use tetragon_kafka_adapter.Metrics.{Metric, drops}
use tetragon_kafka_adapter.Grpc.Stream.{
  context_cancelled, Turn, Reading, is_running, read_turn, read_loop, read_events,
}

-- The increments of drops_total.
pub drop_count : List Metric → ℕ
drop_count [] = 0
drop_count (drops reason ∷ ms) = suc (drop_count ms)
drop_count (m ∷ ms) = drop_count ms

drop_count-append : (ms ns : List Metric) → drop_count (ms ++ ns) ≡ drop_count ms + drop_count ns
unfolding drop_count
drop_count-append [] ns = omega arith
drop_count-append (drops reason ∷ ms) ns = omega (arith, drop_count-append ms ns)
drop_count-append (m ∷ ms) ns = drop_count-append ms ns

module _ {E : Type 0} where
  -- The events received against those delivered and those dropped, which drops_total counts.
  pub record IsAccounted (s : Reading E) : Type 0 where
    pub whole :
        (s.returned ≡ some (some context_cancelled))
        ⊎ (length s.received ≡ length s.delivered + length s.dropped)
    pub at_most_one : length s.received ≤ length s.delivered + length s.dropped + 1
    pub no_less : length s.delivered + length s.dropped ≤ length s.received
    pub counted : drop_count s.metrics ≡ length s.dropped
    pub not_nil : s.returned ≢ some none

  turn-IsAccounted :
      (s : Reading E) (t : Turn E) → s.returned ≡ none → IsAccounted s → IsAccounted (read_turn s t)
  unfolding read_turn drop_count
  turn-IsAccounted s t r h =
      let recv = λ (e : E). length-append s.received (e ∷ []) in
      let pass = λ (e : E). length-append s.delivered (e ∷ []) in
      let drop = λ (e : E). length-append s.dropped (e ∷ []) in
      grind (arith, recv, pass, drop, drop_count-append)

  next-IsAccounted :
      (s : Reading E) (t : Turn E)
      → IsAccounted s
      → IsAccounted (if is_running s then read_turn s t else s)
  next-IsAccounted s t h = ground (arith, turn-IsAccounted s t)

  loop-IsAccounted :
      (s : Reading E) (ts : List (Turn E)) → IsAccounted s → IsAccounted (read_loop s ts)
  unfolding read_loop
  loop-IsAccounted s [] h = h
  loop-IsAccounted s (t ∷ ts) h =
      loop-IsAccounted (if is_running s then read_turn s t else s) ts (next-IsAccounted s t h)

  -- Whatever the stream, the channel and the context do: every event that ReadEvents receives is
  -- delivered or counted in drops_total, but for at most one, and that only if it returns because
  -- the context was cancelled; and ReadEvents never returns nil.
  pub read_events-IsAccounted :
      (opens : Bool) (ts : List (Turn E)) → IsAccounted (read_events opens ts)
  unfolding read_events drop_count
  read_events-IsAccounted true ts = loop-IsAccounted _ ts (ground arith)
  read_events-IsAccounted false ts = ground arith
