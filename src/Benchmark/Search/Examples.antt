-- ===== src/Benchmark/Search/Examples.antt =====
-- Runs of the search, after the tests of search.rs.
use capture_room.Prelude.{◌≡◌, refl, true, false, none, some, [], ◌∷◌, arith}
use capture_room.Benchmark.Search.{
  Search, Next, measure, done, next, passed, failed, cap, next_if_passed,
}
use capture_room.Benchmark.Search.Invariant.{IsValid}
use capture_room.Benchmark.Search.Answer.{Decides, next-Decides}

abbrev doubled : Search
doubled = record { limit = 64; passes = (4, false) ∷ (2, false) ∷ (1, false) ∷ []; fail = none }

forecast_doubles : next_if_passed doubled 8 false ≡ some (some 16)
unfolding next_if_passed
forecast_doubles = refl

next_doubles : next doubled ≡ some (measure 8 false)
unfolding next
next_doubles = refl

forecast_narrows : next_if_passed (passed 6 true (failed 8 doubled)) 7 true ≡ some none
unfolding next_if_passed failed
forecast_narrows = refl

capping_ends : next (cap 4 (passed 4 true doubled)) ≡ some (done 4)
unfolding next cap passed
capping_ends = refl

abbrev narrowing : Search
narrowing = record { limit = 64; passes = (4, false) ∷ (1, false) ∷ []; fail = some 8 }

narrowing-IsValid : IsValid 64 narrowing
narrowing-IsValid = record {
  limited = omega arith;
  ordered = omega arith;
  positive = omega arith;
  bounded = omega arith;
}

next-Decides_example : (r : Next) × (next narrowing ≡ some r) × Decides 64 narrowing r
next-Decides_example = next-Decides 64 narrowing (omega arith) narrowing-IsValid
