-- ===== src/Benchmark/Run/Examples.antt =====
-- Runs of the benchmark's loop on machines of a few feeds.
use capture_room.Prelude.{
  ℕ, zero, suc, ◌+◌, ◌*◌, ◌/◌, ◌-◌, ◌≡◌, ◌≢◌, refl, ◌⊎◌, inl, true, false, none, some, List, [],
  ◌∷◌, arith, leb, ltb, All,
}
use native.Mathlib.Nat.{div-le_of_le-mul, le-div_iff_mul-le}
use capture_room.Benchmark.Memory.{Budget, fits}
use capture_room.Benchmark.Memory
use capture_room.Benchmark.Search.{next, new, next_if_passed, failed}
use capture_room.Benchmark.Run.{
  Run, Round, Windows, finished, aborted, goes_on, measured, iterate, loop, start,
}
use capture_room.Benchmark.Run.Room.{HasRoom, IsLight}
use capture_room.Benchmark.Run.Ending.{loop-start_total, loop-start_ends}
use capture_room.Benchmark.Run.Capacity.{Tells, Undisturbed, loop_finds_capacity}
use capture_room.Benchmark.Run.Spin.{IsStuck, loop_stuck}

abbrev sustains : ℕ → Windows
sustains capacity = record {
  quick_passed = λ n. leb n 8;
  far_over = λ n. ltb (capacity + 3) n;
  full_passed = λ n i. leb n capacity;
}

sustains-Tells : (capacity : ℕ) → Tells capacity (sustains capacity)
sustains-Tells capacity = record {
  passes = λ n h. inl (ground arith);
  honest = λ n attempt h. ground arith;
  far = λ n h. ground arith;
}

abbrev after : ℕ → ℕ → Round
after capacity available = record {
  answer = measured (sustains capacity) (λ n. available);
  low_volume = false;
}

abbrev repeat : ℕ → Round → List Round
repeat zero r = []
repeat (suc n) r = r ∷ repeat n r

-- What the program divides by, but for the rounding of its floats.
abbrev by_margin : ℕ → ℕ → ℕ
by_margin room per_feed = room * 4 / (per_feed * 5)

-- A machine with 16 GB of memory, 11 GB of it available before the run, on which n feeds take n times 500 MB.
abbrev light : Round
light = record {
  answer = measured (sustains 3) (λ n. 11_000_000_000 - n * 500_000_000);
  low_volume = false;
}

repeat-Undisturbed : (n : ℕ) → All (Undisturbed 3) (repeat n light)
repeat-Undisturbed zero = tt
repeat-Undisturbed (suc n) = ((sustains-Tells 3, refl), repeat-Undisturbed n)

repeat-IsLight : (n : ℕ) → All (IsLight 11_000_000_000 500_000_000) (repeat n light)
repeat-IsLight zero = tt
repeat-IsLight (suc n) = ((λ m h. div-le_of_le-mul m (omega arith)), repeat-IsLight n)

abbrev before : Budget
before = record { baseline = 11_000_000_000; floor = 2_000_000_000; per_feed = 0 }

before-HasRoom : HasRoom by_margin 4 11_000_000_000 500_000_000 before
before-HasRoom = record {
  from = refl;
  within = omega arith;
  plenty = λ p h k. (le-div_iff_mul-le (omega arith)).1 (omega arith);
}

loop-start_total_example : loop by_margin (repeat 2 light) (start 4 before) ≢ none
loop-start_total_example =
    loop-start_total by_margin 4 before (repeat 2 light) (omega arith) (omega arith)

loop-start_ends_example :
    ((n : ℕ) × (loop by_margin (repeat 71 light) (start 4 before) ≡ some (finished n)))
    ⊎ (loop by_margin (repeat 71 light) (start 4 before) ≡ some aborted)
loop-start_ends_example =
    loop-start_ends by_margin 4 500_000_000 before (repeat 71 light) (omega arith) (omega arith)
      before-HasRoom (repeat-IsLight 71) (omega arith)

loop_finds_capacity_example : loop by_margin (repeat 71 light) (start 4 before) ≡ some (finished 3)
loop_finds_capacity_example =
    loop_finds_capacity by_margin 3 4 500_000_000 before (repeat 71 light) (omega arith)
      (omega arith) before-HasRoom (repeat-IsLight 71) (repeat-Undisturbed 71) (omega arith)

-- The same machine with 12 feeds that take 560 MB each.
abbrev memory : Budget
memory = record { baseline = 11_000_000_000; floor = 2_000_000_000; per_feed = 560_000_000 }

abbrev stuck : Run
stuck = record {
  search = record {
    limit = 64;
    passes = (12, true) ∷ (8, false) ∷ (4, false) ∷ (2, false) ∷ (1, false) ∷ [];
    fail = some 16;
  };
  budget = memory;
  capped = none;
  running = 12;
  sustainable = 12;
  next_feeds = some 14;
}

abbrev history : List Round
history =
    after 12 10_600_000_000
    ∷ after 12 10_200_000_000
    ∷ after 12 9_400_000_000
    ∷ after 12 7_800_000_000
    ∷ after 12 2_040_000_000
    ∷ after 12 4_280_000_000
    ∷ []

-- The run comes to this state by itself.
stuck_reached :
    loop by_margin history (start 64 (Memory.new 16_000_000_000 11_000_000_000))
    ≡ some (goes_on stuck)
unfolding loop start iterate Memory.new Memory.fits Memory.observe next new next_if_passed failed
stuck_reached = refl

stuck-IsStuck : IsStuck by_margin 16 12 stuck
unfolding fits
stuck-IsStuck = record { failing = refl; gap = omega arith; fitting = refl; below = omega arith }

loop_stuck_example :
    (q : Run) × (loop by_margin (repeat 1000 (after 12 4_280_000_000)) stuck ≡ some (goes_on q))
    × (q.search.passes ≡ stuck.search.passes)
    × (q.search.fail ≡ some 16)
    × (q.running ≡ 12)
loop_stuck_example =
    loop_stuck by_margin 16 12 (repeat 1000 (after 12 4_280_000_000)) stuck stuck-IsStuck
