-- ===== src/Benchmark/Memory.antt =====
-- node/src/benchmark/memory.rs: how much memory feeds take, and how many more fit.
use capture_room.Prelude.{ℕ, ◌-◌, ◌/◌, max, Bool, Option, none, some, ltb, if◌then◌else◌}

-- 3 << 29.
abbrev min_free_memory : ℕ
min_free_memory = 1610612736

abbrev min_free_memory_share : ℕ
min_free_memory_share = 8

pub record Budget : Type 0 where
  pub baseline : ℕ
  pub floor : ℕ
  pub per_feed : ℕ

unfoldable pub new : ℕ → ℕ → Budget
new total available = record {
  baseline = available;
  floor = max min_free_memory (total / min_free_memory_share);
  per_feed = 0;
}

unfoldable pub short : Budget → ℕ → Bool
short b available = ltb available b.floor

unfoldable pub observe : ℕ → ℕ → Budget → Budget
observe available feeds b =
    if ltb 0 feeds
    then record b { per_feed = max b.per_feed ((b.baseline - available) / feeds) }
    else b

-- `quotient room per_feed` is the float division `(room / (per_feed * MEMORY_MARGIN)) as u32`.
unfoldable pub fits : (ℕ → ℕ → ℕ) → Budget → Option ℕ
fits quotient b =
    if ltb 0 b.per_feed then some (quotient (b.baseline - b.floor) b.per_feed) else none
