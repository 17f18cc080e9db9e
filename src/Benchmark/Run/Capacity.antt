-- ===== src/Benchmark/Run/Capacity.antt =====
-- What a run finds on a machine that sustains a fixed number of feeds.
use capture_room.Prelude.{
  ℕ, ◌+◌, ◌*◌, ◌≤◌, ◌<◌, ◌≡◌, refl, ◌⊎◌, inl, inr, Bool, true, false, Option, none, some, List, [],
  ◌∷◌, arith, min, All, length, All-retain, Option-cases, ltb,
}
use capture_room.Benchmark.Memory.{Budget, observe}
use capture_room.Benchmark.Search.{
  Search, Next, measure, done, best, greatest, entry, mark, passed, failed, next, next_if_passed,
  lowest,
}
use capture_room.Benchmark.Search
use capture_room.Benchmark.Search.Invariant.{IsValid, ceiling, greatest-lt, passed-IsValid}
use capture_room.Benchmark.Search.Answer.{Decides, IsSettled, ends, next-Decides}
use capture_room.Benchmark.Search.Measure.{weight}
use capture_room.Benchmark.Run.{
  Run, Round, Turn, finished, aborted, goes_on, Answer, measured, short_of_memory, stopped, Windows,
  check, loop, iterate, start, judge, follow, respond, publish,
}
use capture_room.Benchmark.Run.Room.{HasRoom, IsLight, Leaves, refused_roomy, iterate-Leaves}
use capture_room.Benchmark.Run.Rounds.{Keeps, Measurable, Decides-Measurable, judge-Keeps}
use capture_room.Benchmark.Run.Ending.{resume, start-IsValid, start-weight}

-- The windows of a machine that sustains `capacity` feeds: a full step of no more than that passes in
-- one of its attempts, one of more never does, and none of it is far over the limit. Quick checks
-- may pass anything.
pub record Tells (capacity : ℕ) (w : Windows) : Type 0 where
  pub passes : (n : ℕ) → n ≤ capacity → (w.full_passed n 1 ≡ true) ⊎ (w.full_passed n 2 ≡ true)
  pub honest : (n attempt : ℕ) → w.full_passed n attempt ≡ true → n ≤ capacity
  pub far : (n : ℕ) → w.far_over n ≡ true → capacity < n

-- The machine answers, with room left on its volumes.
abbrev pub Answers : ℕ → Answer → Type 0
Answers capacity (measured w available) = Tells capacity w
Answers capacity (short_of_memory started) = ⊥
Answers capacity stopped = ⊥

abbrev pub Undisturbed : ℕ → Round → Type 0
Undisturbed capacity round = Answers capacity round.answer × (round.low_volume ≡ false)

abbrev Proves : ℕ → ℕ × Bool → Type 0
Proves capacity (n, full) = full ≡ true → n ≤ capacity

-- What the search holds is true of the machine, and its limit has not moved.
record Truthful (capacity limit : ℕ) (s : Search) : Type 0 where
  proved : All (Proves capacity) s.passes
  missed : (hi : ℕ) → s.fail ≡ some hi → capacity < hi
  unmoved : s.limit ≡ limit

check_kept :
    (capacity n : ℕ) (full : Bool) (w : Windows)
    → Tells capacity w
    → check n full w ≡ some true
    → n ≤ capacity
unfolding check
check_kept capacity n full w t h = ground (arith, t.honest n 1, t.honest n 2)

check_dropped :
    (capacity n : ℕ) (full : Bool) (w : Windows)
    → Tells capacity w
    → check n full w ≡ none
    → capacity < n
unfolding check
check_dropped capacity n full w t h = ground (arith, t.passes n, t.far n)

mark-Proves :
    (capacity n : ℕ) (full : Bool) (ps : List (ℕ × Bool))
    → (full ≡ true → n ≤ capacity)
    → All (Proves capacity) ps
    → All (Proves capacity) (mark n full ps)
mark-Proves capacity n full [] f h = (f, tt)
mark-Proves capacity n full ((m, old) ∷ ps) f h = ground (arith, mark-Proves capacity n full ps f)

missed-lowest :
    (capacity n : ℕ) (f : Option ℕ)
    → capacity < n
    → ((hi : ℕ) → f ≡ some hi → capacity < hi)
    → (hi : ℕ) → some (lowest f n) ≡ some hi
    → capacity < hi
missed-lowest capacity n none h m hi e = ground arith
missed-lowest capacity n (some f) h m hi e = ground (arith, m f refl)

judge-Truthful :
    (capacity limit n : ℕ) (full : Bool) (w : Windows) (r : Run)
    → Tells capacity w
    → Truthful capacity limit r.search
    → Truthful capacity limit (judge n false (check n full w) r).search
unfolding passed failed
judge-Truthful capacity limit n full w r t h = elim (Option-cases (check n full w)) [
  | inl e ↦ rw e (record {
    proved = All-retain (Proves capacity) (λ (p : ℕ × Bool). ltb p.0 n) r.search.passes h.proved;
    missed = missed-lowest capacity n r.search.fail (check_dropped capacity n full w t e) h.missed;
    unmoved = h.unmoved;
  })
  | inr (kept, e) ↦ rw e (record {
    proved =
        mark-Proves capacity n kept r.search.passes
          (λ k. check_kept capacity n full w t (rw k at e)) h.proved;
    missed = h.missed;
    unmoved = h.unmoved;
  })
]

-- What an undisturbed iteration comes to.
abbrev Finds : ℕ → ℕ → Search → Option Turn → Type 0
Finds capacity bound s none = ⊥
Finds capacity bound s (some (finished n)) = n ≡ min capacity bound
Finds capacity bound s (some aborted) = ⊥
Finds capacity bound s (some (goes_on q)) = Keeps bound 1 s q × Truthful capacity bound q.search

publish-Finds :
    (capacity bound : ℕ) (s : Search) (q : Run)
    → bound * 2 < 4294967296
    → Keeps bound 1 s q
    → Truthful capacity bound q.search
    → Finds capacity bound s (publish q)
publish-Finds capacity bound s q small k t =
    let (f, e, d) = next-Decides bound q.search small k.valid in
    rw e (
      record { valid = k.valid; running = k.running; lower = k.lower },
      record { proved = t.proved; missed = t.missed; unmoved = t.unmoved },
    )

best_proved :
    (capacity : ℕ) (ps : List (ℕ × Bool))
    → All (Proves capacity) ps
    → (greatest ps ≡ 0) ⊎ (entry (greatest ps) ps ≡ some true)
    → greatest ps ≤ capacity
best_proved capacity [] h d = omega arith
best_proved capacity ((n, full) ∷ ps) h d = ground (arith, h.0)

done_finds :
    (capacity bound : ℕ) (s : Search)
    → IsValid bound s
    → Truthful capacity bound s
    → IsSettled bound s
    → (best s ≡ 0) ⊎ (entry (best s) s.passes ≡ some true)
    → best s ≡ min capacity bound
done_finds capacity bound s v t (inl e) d =
    let proved = best_proved capacity s.passes t.proved d in
    let missed = t.missed _ e in
    let top = greatest-lt (ceiling bound s.fail) s.passes v.positive v.ordered in
    omega (arith, v.bounded)
done_finds capacity bound s v t (inr (e, h)) d =
    let proved = best_proved capacity s.passes t.proved d in
    let top = greatest-lt (ceiling bound s.fail) s.passes v.positive v.ordered in
    omega (arith, v.bounded, t.unmoved)

module _ (capacity bound : ℕ) (small : bound * 2 < 4294967296) where
  respond-Finds :
      (n : ℕ) (full low : Bool) (answer : Answer) (r : Run)
      → Answers capacity answer
      → low ≡ false
      → IsValid bound r.search
      → Truthful capacity bound r.search
      → Measurable bound n full r.search
      → Finds capacity bound r.search (respond n full low answer r)
  unfolding next_if_passed
  respond-Finds n full low (measured w available) r a l v t m =
      let after = passed-IsValid bound n full r.search m.positive m.open_above v in
      let (f, e, d) = next-Decides bound (passed n full r.search) small after in
      let r' : Run = record r { running = n; budget = observe (available n) n r.budget } in
      rw (e, l)
        (publish-Finds capacity bound r.search _ small
          (judge-Keeps bound n full false w r' v m (omega arith))
          (judge-Truthful capacity bound n full w r' a t))
  respond-Finds n full low (short_of_memory started) r a l v t m = absurd a
  respond-Finds n full low stopped r a l v t m = absurd a

  iterate-Finds :
      (quotient : ℕ → ℕ → ℕ) (baseline share : ℕ) (round : Round) (r : Run)
      → HasRoom quotient bound baseline share r.budget
      → Undisturbed capacity round
      → IsValid bound r.search
      → Truthful capacity bound r.search
      → Finds capacity bound r.search (iterate quotient round r)
  unfolding iterate
  iterate-Finds quotient baseline share round r plenty u v t =
      let (next, e, d) = next-Decides bound r.search small v in rw e (go next d)
    where
      go :
          (next : Next)
          → Decides bound r.search next
          → Finds capacity bound r.search (follow quotient next round r)
      go (done n) (ends st d) = done_finds capacity bound r.search v t st d
      go (measure n full) d =
          let m = Decides-Measurable bound n full r.search v d in
          rw
            (refused_roomy quotient bound baseline share n r.budget (best r.search) plenty m.within)
            (respond-Finds n full round.low_volume round.answer r u.0 u.1 v t m)

  resume-Finds :
      (quotient : ℕ → ℕ → ℕ) (baseline share : ℕ) (rounds : List Round) (s : Search)
      (t : Option Turn)
      → Finds capacity bound s t
      → Leaves quotient bound baseline share t
      → ((q : Run)
          → Keeps bound 1 s q
          → Truthful capacity bound q.search
          → HasRoom quotient bound baseline share q.budget
          → loop quotient rounds q ≡ some (finished (min capacity bound)))
      → resume quotient rounds t ≡ some (finished (min capacity bound))
  resume-Finds quotient baseline share rounds s none k l rest = absurd k
  resume-Finds quotient baseline share rounds s (some (finished n)) k l rest = rw k
  resume-Finds quotient baseline share rounds s (some aborted) k l rest = absurd k
  resume-Finds quotient baseline share rounds s (some (goes_on q)) k l rest = rest q k.0 k.1 l

  loop-Finds :
      (quotient : ℕ → ℕ → ℕ) (baseline share : ℕ) (rounds : List Round) (r : Run)
      → HasRoom quotient bound baseline share r.budget
      → All (IsLight baseline share) rounds
      → All (Undisturbed capacity) rounds
      → IsValid bound r.search
      → Truthful capacity bound r.search
      → weight bound r.search < length rounds
      → loop quotient rounds r ≡ some (finished (min capacity bound))
  unfolding loop
  loop-Finds quotient baseline share [] r room light u v t w = absurd (omega arith)
  loop-Finds quotient baseline share (round ∷ rounds) r room light u v t w =
      resume-Finds quotient baseline share rounds r.search (iterate quotient round r)
        (iterate-Finds quotient baseline share round r room u.0 v t)
        (iterate-Leaves quotient bound baseline share round r light.0 room)
        λ q k t' roomy.
          loop-Finds quotient baseline share rounds q roomy light.1 u.1 k.valid t'
            (omega (arith, k.lower))

start-Truthful :
    (capacity n : ℕ) (budget : Budget) → 0 < n → Truthful capacity n (start n budget).search
unfolding start Search.new
start-Truthful capacity n budget h = record {
  proved = tt;
  missed = λ hi e. absurd (cc);
  unmoved = omega arith;
}

-- On a machine that sustains `capacity` feeds, with no run stopped, its volumes never short, no feed shown to take
-- more than `share` of memory, and room in the memory available before the run, by the budget's own division, for `max_feeds` feeds while each takes
-- that much or less: a run of up to `max_feeds` feeds (from 1 to 2^31 - 1) finishes with the lesser of the
-- two, within (n + 1)(2n + 6) + 1 iterations for n feeds, whichever counts its quick checks pass.
pub loop_finds_capacity :
    (quotient : ℕ → ℕ → ℕ) (capacity max_feeds share : ℕ) (budget : Budget) (rounds : List Round)
    → 0 < max_feeds
    → max_feeds * 2 < 4294967296
    → HasRoom quotient max_feeds budget.baseline share budget
    → All (IsLight budget.baseline share) rounds
    → All (Undisturbed capacity) rounds
    → (max_feeds + 1) * (2 * max_feeds + 6) < length rounds
    → loop quotient rounds (start max_feeds budget) ≡ some (finished (min capacity max_feeds))
unfolding start
loop_finds_capacity quotient capacity n share budget rounds p small room light u h =
    loop-Finds capacity n small quotient budget.baseline share rounds (start n budget) room light u
      (start-IsValid n budget p) (start-Truthful capacity n budget p)
      (omega (arith, start-weight n budget))
