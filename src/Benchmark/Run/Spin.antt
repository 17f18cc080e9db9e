-- ===== src/Benchmark/Run/Spin.antt =====
-- The loop while it narrows and memory has no room for the count between: it only lowers the limit,
-- which narrowing does not read.
use capture_room.Prelude.{ℕ, suc, ◌+◌, ◌-◌, ◌/◌, ◌<◌, ◌≡◌, refl, some, List, [], ◌∷◌, arith, max}
use capture_room.Benchmark.Memory.{fits}
use capture_room.Benchmark.Search.{best, cap}
use capture_room.Benchmark.Search.Answer.{next_bisect}
use capture_room.Benchmark.Run.{Run, Round, goes_on, wouldnt_fit, iterate, loop, refused}

-- A count failed with room below it, and fewer feeds fit than the one halfway.
pub record IsStuck (quotient : ℕ → ℕ → ℕ) (hi fit : ℕ) (r : Run) : Type 0 where
  pub failing : r.search.fail ≡ some hi
  pub gap : suc (best r.search) < hi
  pub fitting : fits quotient r.budget ≡ some fit
  pub below : fit < best r.search + (hi - best r.search) / 2

abbrev refuse : ℕ → ℕ → Run → Run
refuse n fit r = record r {
  search = cap (max fit (best r.search)) r.search;
  capped = some (wouldnt_fit n fit);
}

refused_lem : (fit n lo : ℕ) → lo < n → fit < n → refused (some fit) n lo ≡ some fit
refused_lem fit n lo h k = ground arith

iterate_stuck :
    (quotient : ℕ → ℕ → ℕ) (hi fit : ℕ) (round : Round) (r : Run)
    → IsStuck quotient hi fit r
    → iterate quotient round r
      ≡ some (goes_on (refuse (best r.search + (hi - best r.search) / 2) fit r))
unfolding iterate
iterate_stuck quotient hi fit round r st =
    let wide = st.gap in
    rw (
      next_bisect hi r.search st.failing st.gap,
      st.fitting,
      refused_lem fit _ (best r.search) (omega arith) st.below,
    )

refuse-IsStuck :
    (quotient : ℕ → ℕ → ℕ) (hi fit n : ℕ) (r : Run)
    → IsStuck quotient hi fit r
    → IsStuck quotient hi fit (refuse n fit r)
unfolding cap
refuse-IsStuck quotient hi fit n r st = record {
  failing = st.failing;
  gap = st.gap;
  fitting = st.fitting;
  below = st.below;
}

-- A run that is narrowing, and for which memory has room for fewer feeds than the count halfway,
-- never ends: after any number of iterations, whatever they would have been answered, it is still
-- looping, with the same passed and failed counts and as many feeds running.
pub loop_stuck :
    (quotient : ℕ → ℕ → ℕ) (hi fit : ℕ) (rounds : List Round) (r : Run)
    → IsStuck quotient hi fit r
    → (q : Run) × (loop quotient rounds r ≡ some (goes_on q))
      × (q.search.passes ≡ r.search.passes)
      × (q.search.fail ≡ r.search.fail)
      × (q.running ≡ r.running)
unfolding loop cap
loop_stuck quotient hi fit [] r st = (r, refl, refl, refl, refl)
loop_stuck quotient hi fit (round ∷ rounds) r st =
    let n = best r.search + (hi - best r.search) / 2 in
    let (q, e, passes, fail, running) =
      loop_stuck quotient hi fit rounds (refuse n fit r) (refuse-IsStuck quotient hi fit n r st) in
    (q, rw (iterate_stuck quotient hi fit round r st, loop) e, passes, fail, running)
