-- ===== src/Metrics/Memory/Totals.antt =====
-- The counters of UpdateMemoryMetrics against the runtime's totals.
use tetragon_kafka_adapter.Prelude.{ℕ, ◌+◌, ◌≤◌, ◌≡◌, refl, List, [], ◌∷◌, some, arith}
use tetragon_kafka_adapter.Metrics.Memory.{
  MemStats, Memory, no_memory, update_memory_metrics, update_all,
}

-- Totals never fall from one reading to the next.
abbrev pub NeverFalls : MemStats → List (MemStats × ℕ) → Type 0
NeverFalls m [] = Unit
NeverFalls m ((n, g) ∷ rest) =
    (m.total_alloc ≤ n.total_alloc) × (m.num_gc ≤ n.num_gc) × NeverFalls n rest

abbrev pub last_of : MemStats → List (MemStats × ℕ) → MemStats
last_of m [] = m
last_of m ((n, g) ∷ rest) = last_of n rest

grows :
    (m : MemStats) (rest : List (MemStats × ℕ)) (s : Memory) (a b : ℕ)
    → s.last_mem_stats ≡ some m
    → s.memory_total_alloc_bytes + a ≡ m.total_alloc
    → s.memory_num_gc + b ≡ m.num_gc
    → NeverFalls m rest
    → ((update_all rest s).memory_total_alloc_bytes + a ≡ (last_of m rest).total_alloc)
      × ((update_all rest s).memory_num_gc + b ≡ (last_of m rest).num_gc)
unfolding update_all update_memory_metrics
grows m [] s a b l t g h = (t, g)
grows m ((n, r) ∷ rest) s a b l t g h =
    let s' = update_memory_metrics n r s in
    grows n rest s' a b refl (ground arith) (ground arith) h.2

-- From fresh metrics, over any calls at totals that never fall: the two counters are the growth of
-- TotalAlloc and NumGC since the first call, and miss what the totals were then.
pub update_all-growth :
    (m : MemStats) (goroutines : ℕ) (rest : List (MemStats × ℕ))
    → NeverFalls m rest
    → let s = update_all ((m, goroutines) ∷ rest) no_memory in
      let last = last_of m rest in
      (s.memory_total_alloc_bytes + m.total_alloc ≡ last.total_alloc)
      × (s.memory_num_gc + m.num_gc ≡ last.num_gc)
unfolding update_all update_memory_metrics
update_all-growth m goroutines rest h =
    grows m rest (update_memory_metrics m goroutines no_memory) m.total_alloc m.num_gc refl
      (ground arith) (ground arith) h
