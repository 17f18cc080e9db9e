-- ===== src/Benchmark/Run/Rounds.antt =====
-- Each iteration of the loop: no panic, the search stays valid, and every measured step lowers the
-- measure, so that a run whose feeds always fit in memory ends.
use capture_room.Prelude.{
  ℕ, suc, ◌+◌, ◌-◌, ◌*◌, ◌≤◌, ◌<◌, ◌≡◌, refl, inl, inr, Bool, true, false, Option, none, some,
  arith, min, Option-cases, sub?-eq_some,
}
use capture_room.Benchmark.Memory.{observe}
use capture_room.Benchmark.Search.{Search, measure, done, best, passed, failed, next_if_passed}
use capture_room.Benchmark.Search.Invariant.{
  IsValid, ceiling, passed-IsValid, failed-IsValid, cap-IsValid, greatest-lt, greatest-retain,
}
use capture_room.Benchmark.Search.Answer.{Decides, bisects, grows, confirms, next-Decides}
use capture_room.Benchmark.Search.Measure.{
  weight, weight-passed, weight-confirmed, weight-failed, weight-cap, best-passed, best-cap,
}
use capture_room.Benchmark.Run.{
  Run, Turn, finished, aborted, goes_on, Answer, ran_short, measured, short_of_memory, stopped,
  Windows, check, judge, publish, respond, set_feeds, back_off,
}

-- What may be measured next, as far as keeping the search valid goes.
pub record Measurable (bound n : ℕ) (full : Bool) (s : Search) : Type 0 where
  pub positive : 0 < n
  pub not_below : best s ≤ n
  pub open_above : n < ceiling bound s.fail
  pub within : n ≤ bound
  pub lowers :
      (kept : Bool) → (full ≡ true → kept ≡ true) → weight bound (passed n kept s) < weight bound s

pub Decides-Measurable :
    (bound n : ℕ) (full : Bool) (s : Search)
    → IsValid bound s
    → Decides bound s (measure n full)
    → Measurable bound n full s
Decides-Measurable bound n full s v (bisects m hi e wide half) =
    let top : ceiling bound s.fail ≡ hi = rw e refl in
    let h : best s < n = omega arith in
    let k : n < ceiling bound s.fail = omega arith in
    record {
      positive = omega arith;
      not_below = omega arith;
      open_above = k;
      within = omega (arith, v.bounded);
      lowers = λ kept f. weight-passed bound n kept s h k;
    }
Decides-Measurable bound n full s v (grows m e room double) =
    let top : ceiling bound s.fail ≡ suc bound = ground arith in
    let h : best s < n = ground arith in
    let within : n ≤ s.limit = ground arith in
    record {
      positive = omega arith;
      not_below = omega arith;
      open_above = omega (arith, v.limited);
      within = omega (arith, v.limited);
      lowers = λ kept f. weight-passed bound n kept s h (omega (arith, v.limited));
    }
Decides-Measurable bound n full s v (confirms st p e) =
    let below = greatest-lt (ceiling bound s.fail) s.passes v.positive v.ordered in
    record {
      positive = p;
      not_below = omega arith;
      open_above = below;
      within = omega (arith, v.bounded);
      lowers = λ kept f. rw (f refl) (weight-confirmed bound s e);
    }

-- What an iteration leaves: a valid search, no more feeds passed than are running, and the measure
-- lower by at least `drop`.
pub record Keeps (bound drop : ℕ) (s : Search) (q : Run) : Type 0 where
  pub valid : IsValid bound q.search
  pub running : best q.search ≤ q.running
  pub lower : drop + weight bound q.search ≤ weight bound s

best-failed :
    (bound n : ℕ) (s : Search) → 0 < n → IsValid bound s → best (failed n s) ≤ min (best s) (n - 1)
unfolding failed
best-failed bound n s p v = omega (arith, greatest-retain n _ s.passes p v.ordered)

pub judge_dropped-Keeps :
    (bound n : ℕ) (full low : Bool) (r : Run)
    → IsValid bound r.search
    → Measurable bound n full r.search
    → n ≤ r.running
    → Keeps bound 1 r.search (judge n low none r)
unfolding failed
judge_dropped-Keeps bound n full low r v m h =
    let left = greatest-retain n _ r.search.passes m.positive v.ordered in
    record {
      valid = failed-IsValid bound n r.search m.positive m.within v;
      running = omega arith;
      lower = omega (arith, weight-failed bound n r.search m.within m.open_above);
    }

pub judge_kept-Keeps :
    (bound n : ℕ) (full low kept : Bool) (r : Run)
    → IsValid bound r.search
    → Measurable bound n full r.search
    → n ≤ r.running
    → (full ≡ true → kept ≡ true)
    → Keeps bound 1 r.search (judge n low (some kept) r)
judge_kept-Keeps bound n full low kept r v m h f = go low
  where
    after : IsValid bound (passed n kept r.search)
    after = passed-IsValid bound n kept r.search m.positive m.open_above v

    top : best (passed n kept r.search) ≡ n
    top = best-passed n kept r.search m.not_below

    go : (low : Bool) → Keeps bound 1 r.search (judge n low (some kept) r)
    go false = record {
      valid = after;
      running = omega (arith, top);
      lower = omega (arith, m.lowers kept f);
    }
    go true = record {
      valid = cap-IsValid bound n _ after;
      running = omega (arith, top, best-cap n (passed n kept r.search));
      lower = omega (arith, m.lowers kept f, weight-cap bound n (passed n kept r.search));
    }

check_full : (n : ℕ) (w : Windows) {kept : Bool} → check n true w ≡ some kept → kept ≡ true
unfolding check
check_full n w h = ground arith

pub judge-Keeps :
    (bound n : ℕ) (full low : Bool) (w : Windows) (r : Run)
    → IsValid bound r.search
    → Measurable bound n full r.search
    → n ≤ r.running
    → Keeps bound 1 r.search (judge n low (check n full w) r)
judge-Keeps bound n full low w r v m h = elim (Option-cases (check n full w)) [
  | inl e ↦ rw e (judge_dropped-Keeps bound n full low r v m h)
  | inr (kept, e) ↦
      rw e (judge_kept-Keeps bound n full low kept r v m h (λ f. check_full n w (rw f at e)))
]

-- What a turn says of the run it was taken from.
abbrev pub Sound : ℕ → ℕ → Search → Option Turn → Type 0
Sound bound drop s none = ⊥
Sound bound drop s (some (finished n)) = Decides bound s (done n)
Sound bound drop s (some aborted) = Unit {0}
Sound bound drop s (some (goes_on q)) = Keeps bound drop s q

pub publish-Sound :
    (bound drop : ℕ) (s : Search) (q : Run)
    → bound * 2 < 4294967296
    → Keeps bound drop s q
    → Sound bound drop s (publish q)
publish-Sound bound drop s q small k =
    let (f, e, d) = next-Decides bound q.search small k.valid in
    rw e (record { valid = k.valid; running = k.running; lower = k.lower })

back_off-Sound :
    (bound n : ℕ) (full : Bool) (started : ℕ) (r : Run)
    → bound * 2 < 4294967296
    → IsValid bound r.search
    → best r.search ≤ r.running
    → Measurable bound n full r.search
    → Sound bound 1 r.search (back_off n started r)
back_off-Sound bound n full started r small v h m =
    rw (sub?-eq_some 1 n m.positive, sub?-eq_some _ _ in_range)
      (publish-Sound bound 1 r.search _ small kept)
  where
    in_range : min (best r.search) (n - 1) ≤ set_feeds n r.running started
    in_range = ground (arith, m.positive)

    kept : Keeps bound 1 r.search (record r {
      running = min (best r.search) (n - 1);
      search = failed n r.search;
      capped = some (ran_short n);
    })
    kept =
        let f =
          judge_dropped-Keeps bound n full false (record r { running = n }) v m (omega arith) in
        record {
          valid = f.valid;
          running = best-failed bound n r.search m.positive v;
          lower = f.lower;
        }

pub respond-Sound :
    (bound n : ℕ) (full low : Bool) (answer : Answer) (r : Run)
    → bound * 2 < 4294967296
    → IsValid bound r.search
    → best r.search ≤ r.running
    → Measurable bound n full r.search
    → Sound bound 1 r.search (respond n full low answer r)
unfolding next_if_passed
respond-Sound bound n full low (measured w available) r small v h m =
    let after = passed-IsValid bound n full r.search m.positive m.open_above v in
    let (f, e, d) = next-Decides bound (passed n full r.search) small after in
    rw e (
      publish-Sound bound 1 r.search _ small (
        judge-Keeps bound n full low w
          (record r { running = n; budget = observe (available n) n r.budget }) v m (omega arith)))
respond-Sound bound n full low (short_of_memory started) r small v h m =
    back_off-Sound bound n full started r small v h m
respond-Sound bound n full low stopped r small v h m = tt
