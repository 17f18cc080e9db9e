-- ===== src/Benchmark/Run/Room.antt =====
-- Memory that has room for a run's feeds, from one iteration to the next.
use capture_room.Prelude.{
  ℕ, ◌-◌, ◌/◌, ◌≤◌, ◌<◌, ◌≡◌, refl, Bool, true, false, Option, none, some, arith, min, ltb,
  Bool-cases, inl, inr, sub?, ◌>>=◌,
}
use capture_room.Benchmark.Memory.{Budget, fits, observe}
use capture_room.Benchmark.Search.{Next, measure, done, best, next_if_passed}
use capture_room.Benchmark.Search
use capture_room.Benchmark.Run.{
  Run, Round, Turn, goes_on, Answer, measured, short_of_memory, stopped, judge, check, ran_short,
  publish, respond, admit, follow, iterate, refused, set_feeds,
}

-- The memory available before the run has room for `bound` feeds, by the budget's own division, whatever
-- one feed has taken so far, and none has taken more than `share`.
pub record HasRoom (quotient : ℕ → ℕ → ℕ) (bound baseline share : ℕ) (b : Budget) : Type 0 where
  pub from : b.baseline ≡ baseline
  pub within : b.per_feed ≤ share
  pub plenty : (p : ℕ) → 0 < p → p ≤ share → bound ≤ quotient (b.baseline - b.floor) p

-- After a step of any number of feeds, one feed has taken at most `share` of the memory that was available before the run.
abbrev pub Takes : ℕ → ℕ → Answer → Type 0
Takes baseline share (measured w available) = (n : ℕ) → 0 < n → (baseline - available n) / n ≤ share
Takes baseline share (short_of_memory started) = Unit
Takes baseline share stopped = Unit

abbrev pub IsLight : ℕ → ℕ → Round → Type 0
IsLight baseline share round = Takes baseline share round.answer

module _ (quotient : ℕ → ℕ → ℕ) (bound baseline share : ℕ) where
  -- What a turn leaves has room too.
  abbrev pub Leaves : Option Turn → Type 0
  Leaves (some (goes_on q)) = HasRoom quotient bound baseline share q.budget
  Leaves _ = Unit

  pub refused_roomy :
      (n : ℕ) (b : Budget) (lo : ℕ)
      → HasRoom quotient bound baseline share b
      → n ≤ bound
      → refused (fits quotient b) n lo ≡ none
  unfolding fits
  refused_roomy n b lo room h = elim (Bool-cases (ltb 0 b.per_feed)) [
    | inl e ↦ let k = room.plenty b.per_feed (ground (arith, e)) room.within in ground arith
    | inr e ↦ rw e refl
  ]

  observe-HasRoom :
      (available n : ℕ) (b : Budget)
      → (0 < n → (baseline - available) / n ≤ share)
      → HasRoom quotient bound baseline share b
      → HasRoom quotient bound baseline share (observe available n b)
  unfolding observe
  observe-HasRoom available n b light room = elim (Bool-cases (ltb 0 n)) [
    | inl e ↦
        let l : (b.baseline - available) / n ≤ share = rw room.from (light (ground (arith, e))) in
        rw e (record {
          from = room.from;
          within = omega (arith, l, room.within);
          plenty = room.plenty;
        })
    | inr e ↦ rw e room
  ]

  bind-Leaves :
      {A : Type 0} (o : Option A) (k : A → Option Turn)
      → ((a : A) → Leaves (k a))
      → Leaves (o >>= k)
  bind-Leaves none k h = tt
  bind-Leaves (some a) k h = h a

  publish-Leaves : (r : Run) → HasRoom quotient bound baseline share r.budget → Leaves (publish r)
  publish-Leaves r room = bind-Leaves (Search.next r.search) _ λ next. room

  judge-HasRoom :
      (n : ℕ) (low : Bool) (kept : Option Bool) (r : Run)
      → HasRoom quotient bound baseline share r.budget
      → HasRoom quotient bound baseline share (judge n low kept r).budget
  judge-HasRoom n low none r room = room
  judge-HasRoom n true (some full) r room = room
  judge-HasRoom n false (some full) r room = room

  respond-Leaves :
      (n : ℕ) (full : Bool) (round : Round) (r : Run)
      → IsLight baseline share round
      → HasRoom quotient bound baseline share r.budget
      → Leaves (respond n full round.low_volume round.answer r)
  respond-Leaves n full round r light room = by_answer round.answer light
    where
      by_answer :
          (a : Answer) → Takes baseline share a → Leaves (respond n full round.low_volume a r)
      by_answer (measured w available) l =
          bind-Leaves (next_if_passed r.search n full) _ λ forecast.
            publish-Leaves
              (judge n round.low_volume (check n full w)
                (record r { running = n; budget = observe (available n) n r.budget }))
              (judge-HasRoom n round.low_volume (check n full w)
                (record r { running = n; budget = observe (available n) n r.budget })
                (observe-HasRoom (available n) n r.budget (l n) room))
      by_answer (short_of_memory started) l = bind-Leaves (sub? n 1) _ λ below.
          bind-Leaves (sub? (set_feeds n r.running started) (min (best r.search) below)) _ λ rest.
            publish-Leaves
              (record r {
                running = min (best r.search) below;
                search = Search.failed n r.search;
                capped = some (ran_short n);
              })
              room
      by_answer stopped l = tt

  -- An iteration of a run with room leaves one with room.
  pub iterate-Leaves :
      (round : Round) (r : Run)
      → IsLight baseline share round
      → HasRoom quotient bound baseline share r.budget
      → Leaves (iterate quotient round r)
  unfolding iterate
  iterate-Leaves round r light room = bind-Leaves (Search.next r.search) _ by_next
    where
      by_fit : (o : Option ℕ) (n : ℕ) (full : Bool) → Leaves (admit o n full round r)
      by_fit none n full = respond-Leaves n full round r light room
      by_fit (some fit) n full = room

      by_next : (next : Next) → Leaves (follow quotient next round r)
      by_next (done n) = tt
      by_next (measure n full) = by_fit (refused (fits quotient r.budget) n (best r.search)) n full
