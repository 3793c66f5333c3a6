-- ===== src/Metrics/Memory.antt =====
-- UpdateMemoryMetrics of internal/metrics/prometheus.go. The runtime's statistics are arguments. The
-- metrics are float64 in the code: a number here stands for one below 2 ^ 53, where these are exact.
pub mod Totals
use tetragon_kafka_adapter.Prelude.{
  ℕ, ◌+◌, ◌-◌, Bool, Option, none, some, List, [], ◌∷◌, ltb, if◌then◌else◌,
}

-- The fields of runtime.MemStats that the code reads.
pub record MemStats : Type 0 where
  pub alloc : ℕ
  pub sys : ℕ
  pub heap_alloc : ℕ
  pub heap_sys : ℕ
  pub heap_inuse : ℕ
  pub heap_idle : ℕ
  pub total_alloc : ℕ
  pub num_gc : ℕ

pub record Memory : Type 0 where
  -- The gauges, as set by the last call, with the number of goroutines.
  pub gauges : Option (MemStats × ℕ)
  -- The counters.
  pub memory_total_alloc_bytes : ℕ
  pub memory_num_gc : ℕ
  -- `lastMemStats`, once it is set.
  pub last_mem_stats : Option MemStats

abbrev pub no_memory : Memory
no_memory = record {
  gauges = none;
  memory_total_alloc_bytes = 0;
  memory_num_gc = 0;
  last_mem_stats = none;
}

abbrev or_first : Option MemStats → MemStats → MemStats
or_first none m = m
or_first (some last) m = last

abbrev add_increase : ℕ → (now before : ℕ) → ℕ
add_increase counter now before = if ltb before now then counter + (now - before) else counter

unfoldable pub update_memory_metrics : MemStats → (goroutines : ℕ) → Memory → Memory
update_memory_metrics m goroutines s =
    let last = or_first s.last_mem_stats m in
    record {
      gauges = some (m, goroutines);
      memory_total_alloc_bytes =
          add_increase s.memory_total_alloc_bytes m.total_alloc last.total_alloc;
      memory_num_gc = add_increase s.memory_num_gc m.num_gc last.num_gc;
      last_mem_stats = some m;
    }

-- The calls of the ticker in main, one after another.
unfoldable pub update_all : List (MemStats × ℕ) → Memory → Memory
update_all [] s = s
update_all ((m, goroutines) ∷ rest) s = update_all rest (update_memory_metrics m goroutines s)
