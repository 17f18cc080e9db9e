-- ===== src/Benchmark/Run/Ending.antt =====
-- The loop of the run: it never panics, and it ends if its feeds always fit in memory.
use capture_room.Prelude.{
  ℕ, ◌+◌, ◌*◌, ◌≤◌, ◌<◌, ◌≡◌, refl, ◌⊎◌, inl, inr, Bool, Option, none, some, List, [], ◌∷◌, arith,
  max, length, All, ◌≢◌, subst,
}
use capture_room.Benchmark.Memory.{Budget, fits}
use capture_room.Benchmark.Search.{Search, Next, measure, done, best, cap}
use capture_room.Benchmark.Search
use capture_room.Benchmark.Search.Invariant.{IsValid, new-IsValid, cap-IsValid}
use capture_room.Benchmark.Search.Answer.{Decides, next-Decides}
use capture_room.Benchmark.Search.Measure.{weight, weight-cap, best-cap, new-weight}
use capture_room.Benchmark.Run.{
  Run, Round, Turn, finished, aborted, goes_on, respond, admit, follow, iterate, loop, refused,
  start,
}
use capture_room.Benchmark.Run.Room.{HasRoom, IsLight, Leaves, refused_roomy, iterate-Leaves}
use capture_room.Benchmark.Run.Rounds.{Keeps, Measurable, Decides-Measurable, Sound, respond-Sound}

Sound-weaken : (bound : ℕ) (s : Search) (t : Option Turn) → Sound bound 1 s t → Sound bound 0 s t
Sound-weaken bound s none h = h
Sound-weaken bound s (some (finished n)) h = h
Sound-weaken bound s (some aborted) h = h
Sound-weaken bound s (some (goes_on q)) h = record {
  valid = h.valid;
  running = h.running;
  lower = omega (arith, h.lower);
}

-- What the loop does with a turn.
abbrev pub resume : (ℕ → ℕ → ℕ) → List Round → Option Turn → Option Turn
resume quotient rounds t = elim t [ some (goes_on next) ↦ loop quotient rounds next | turn ↦ turn ]

module _ (bound : ℕ) (small : bound * 2 < 4294967296) where
  admit-Sound :
      (f : Option ℕ) (n : ℕ) (full : Bool) (round : Round) (r : Run)
      → IsValid bound r.search
      → best r.search ≤ r.running
      → Measurable bound n full r.search
      → Sound bound 0 r.search (admit f n full round r)
  admit-Sound none n full round r v h m =
      Sound-weaken bound r.search (respond n full round.low_volume round.answer r)
        (respond-Sound bound n full round.low_volume round.answer r small v h m)
  admit-Sound (some fit) n full round r v h m = record {
    valid = cap-IsValid bound (max fit (best r.search)) r.search v;
    running = omega (arith, best-cap (max fit (best r.search)) r.search);
    lower = omega (arith, weight-cap bound (max fit (best r.search)) r.search);
  }

  follow-Sound :
      (quotient : ℕ → ℕ → ℕ) (next : Next) (round : Round) (r : Run)
      → IsValid bound r.search
      → best r.search ≤ r.running
      → Decides bound r.search next
      → Sound bound 0 r.search (follow quotient next round r)
  follow-Sound quotient (done n) round r v h d = d
  follow-Sound quotient (measure n full) round r v h d =
      admit-Sound (refused (fits quotient r.budget) n (best r.search)) n full round r v h
        (Decides-Measurable bound n full r.search v d)

  -- On a run whose search is valid, with the feeds that passed all running, an iteration does not
  -- panic. It finishes only with what `next` is done with, and what it goes on with is valid again.
  pub iterate-Sound :
      (quotient : ℕ → ℕ → ℕ) (round : Round) (r : Run)
      → IsValid bound r.search
      → best r.search ≤ r.running
      → Sound bound 0 r.search (iterate quotient round r)
  unfolding iterate
  iterate-Sound quotient round r v h =
      let (next, e, d) = next-Decides bound r.search small v in
      rw e (follow-Sound quotient next round r v h d)

  -- With room for as many feeds as the search may try, nothing is refused and the measure falls.
  iterate_lowers :
      (quotient : ℕ → ℕ → ℕ) (baseline share : ℕ) (round : Round) (r : Run)
      → HasRoom quotient bound baseline share r.budget
      → IsValid bound r.search
      → best r.search ≤ r.running
      → Sound bound 1 r.search (iterate quotient round r)
  unfolding iterate
  iterate_lowers quotient baseline share round r plenty v h =
      let (next, e, d) = next-Decides bound r.search small v in rw e (go next d)
    where
      go :
          (next : Next)
          → Decides bound r.search next
          → Sound bound 1 r.search (follow quotient next round r)
      go (done n) d = d
      go (measure n full) d =
          let m = Decides-Measurable bound n full r.search v d in
          rw
            (refused_roomy quotient bound baseline share n r.budget (best r.search) plenty m.within)
            (respond-Sound bound n full round.low_volume round.answer r small v h m)

  -- The run is over, by its own answer or by being stopped.
  abbrev Ends : Option Turn → Type 0
  Ends t = ((n : ℕ) × (t ≡ some (finished n))) ⊎ (t ≡ some aborted)

  resume-Ends :
      (quotient : ℕ → ℕ → ℕ) (baseline share : ℕ) (rounds : List Round) (s : Search)
      (t : Option Turn)
      → Sound bound 1 s t
      → Leaves quotient bound baseline share t
      → ((q : Run)
          → Keeps bound 1 s q
          → HasRoom quotient bound baseline share q.budget
          → Ends (loop quotient rounds q))
      → Ends (resume quotient rounds t)
  resume-Ends quotient baseline share rounds s none k l rest = absurd k
  resume-Ends quotient baseline share rounds s (some (finished n)) k l rest = inl (n, refl)
  resume-Ends quotient baseline share rounds s (some aborted) k l rest = inr refl
  resume-Ends quotient baseline share rounds s (some (goes_on q)) k l rest = rest q k l

  loop-Ends :
      (quotient : ℕ → ℕ → ℕ) (baseline share : ℕ) (rounds : List Round) (r : Run)
      → HasRoom quotient bound baseline share r.budget
      → All (IsLight baseline share) rounds
      → IsValid bound r.search
      → best r.search ≤ r.running
      → weight bound r.search < length rounds
      → Ends (loop quotient rounds r)
  unfolding loop
  loop-Ends quotient baseline share [] r room light v h w = absurd (omega arith)
  loop-Ends quotient baseline share (round ∷ rounds) r room light v h w =
      resume-Ends quotient baseline share rounds r.search (iterate quotient round r)
        (iterate_lowers quotient baseline share round r room v h)
        (iterate-Leaves quotient bound baseline share round r light.0 room)
        λ q k roomy.
          loop-Ends quotient baseline share rounds q roomy light.1 k.valid k.running
            (omega (arith, k.lower))

  resume_total :
      (quotient : ℕ → ℕ → ℕ) (rounds : List Round) (s : Search) (t : Option Turn)
      → Sound bound 0 s t
      → ((q : Run) → Keeps bound 0 s q → loop quotient rounds q ≢ none)
      → resume quotient rounds t ≢ none
  resume_total quotient rounds s none k rest = absurd k
  resume_total quotient rounds s (some (finished n)) k rest = λ e. cc
  resume_total quotient rounds s (some aborted) k rest = λ e. cc
  resume_total quotient rounds s (some (goes_on q)) k rest = rest q k

  loop_total :
      (quotient : ℕ → ℕ → ℕ) (rounds : List Round) (r : Run)
      → IsValid bound r.search
      → best r.search ≤ r.running
      → loop quotient rounds r ≢ none
  unfolding loop
  loop_total quotient [] r v h = λ e. cc
  loop_total quotient (round ∷ rounds) r v h =
      resume_total quotient rounds r.search (iterate quotient round r)
        (iterate-Sound quotient round r v h) λ q k. loop_total quotient rounds q k.valid k.running

pub start-IsValid : (n : ℕ) (budget : Budget) → 0 < n → IsValid n (start n budget).search
unfolding start
start-IsValid n budget h =
    let e : max n 1 ≡ n = omega arith in subst (λ b. IsValid b (Search.new n)) e (new-IsValid n)

pub start-weight :
    (n : ℕ) (budget : Budget) → weight n (start n budget).search ≡ (n + 1) * (2 * n + 6)
unfolding start
start-weight n budget = omega (arith, new-weight n n)

pub start-best : (n : ℕ) (budget : Budget) → best (start n budget).search ≤ (start n budget).running
unfolding start Search.new
start-best n budget = omega arith

-- A run of up to 2^31 - 1 feeds never panics: no index is missing, no `unwrap` finds nothing, no
-- 32-bit arithmetic leaves its range and no drain starts past the end, whatever the machine answers.
pub loop-start_total :
    (quotient : ℕ → ℕ → ℕ) (max_feeds : ℕ) (budget : Budget) (rounds : List Round)
    → 0 < max_feeds
    → max_feeds * 2 < 4294967296
    → loop quotient rounds (start max_feeds budget) ≢ none
loop-start_total quotient n budget rounds p small =
    loop_total n small quotient rounds (start n budget) (start-IsValid n budget p)
      (start-best n budget)

-- A run of up to 2^31 - 1 feeds ends, whatever its steps measure, if no step shows a feed to take more than `share` of memory, and
-- the memory available before the run has room, by the budget's own division, for all its feeds while each takes that much or less:
-- within (n + 1)(2n + 6) + 1 iterations for n feeds it has its answer or was stopped.
pub loop-start_ends :
    (quotient : ℕ → ℕ → ℕ) (max_feeds share : ℕ) (budget : Budget) (rounds : List Round)
    → 0 < max_feeds
    → max_feeds * 2 < 4294967296
    → HasRoom quotient max_feeds budget.baseline share budget
    → All (IsLight budget.baseline share) rounds
    → (max_feeds + 1) * (2 * max_feeds + 6) < length rounds
    → ((n : ℕ) × (loop quotient rounds (start max_feeds budget) ≡ some (finished n)))
      ⊎ (loop quotient rounds (start max_feeds budget) ≡ some aborted)
unfolding start
loop-start_ends quotient n share budget rounds p small room light h =
    loop-Ends n small quotient budget.baseline share rounds (start n budget) room light
      (start-IsValid n budget p) (start-best n budget) (omega (arith, start-weight n budget))
