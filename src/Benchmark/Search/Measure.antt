-- ===== src/Benchmark/Search/Measure.antt =====
-- A measure of what the search has left to do, which every measured count lowers.
use capture_room.Prelude.{
  ℕ, ◌+◌, ◌-◌, ◌*◌, ◌≤◌, ◌<◌, ◌≡◌, refl, Bool, true, false, some, List, [], ◌∷◌, arith, retain, ltb,
}
use capture_room.Benchmark.Search.{
  Search, best, greatest, entry, mark, passed, failed, cap, lowest, new,
}
use capture_room.Benchmark.Search.Invariant.{ceiling, ceiling-lowest}

abbrev unconfirmed : List (ℕ × Bool) → ℕ
unconfirmed [] = 0
unconfirmed ((n, true) ∷ ps) = 0
unconfirmed ((n, false) ∷ ps) = 1

abbrev weigh : ℕ → ℕ → List (ℕ × Bool) → ℕ
weigh bound top ps = top * (2 * bound + 4) + 2 * (top - greatest ps) + unconfirmed ps

pub weight : ℕ → Search → ℕ
weight bound s = weigh bound (ceiling bound s.fail) s.passes

unconfirmed-le : (ps : List (ℕ × Bool)) → unconfirmed ps ≤ 1
unconfirmed-le [] = omega arith
unconfirmed-le ((n, true) ∷ ps) = omega arith
unconfirmed-le ((n, false) ∷ ps) = omega arith

pub greatest-mark :
    (n : ℕ) (full : Bool) (ps : List (ℕ × Bool)) → greatest ps ≤ n → greatest (mark n full ps) ≡ n
greatest-mark n full [] h = refl
greatest-mark n full ((m, old) ∷ ps) h = ground arith

unconfirmed-mark_full :
    (n : ℕ) (ps : List (ℕ × Bool)) → greatest ps ≤ n → unconfirmed (mark n true ps) ≡ 0
unconfirmed-mark_full n [] h = refl
unconfirmed-mark_full n ((m, old) ∷ ps) h = ground arith

unconfirmed_of_entry :
    (ps : List (ℕ × Bool)) → entry (greatest ps) ps ≡ some false → unconfirmed ps ≡ 1
unconfirmed_of_entry [] h = ground arith
unconfirmed_of_entry ((n, full) ∷ ps) h = ground arith

pub weight-passed :
    (bound n : ℕ) (full : Bool) (s : Search)
    → best s < n
    → n < ceiling bound s.fail
    → weight bound (passed n full s) < weight bound s
unfolding weight passed
weight-passed bound n full s h k =
    omega (arith, greatest-mark n full s.passes, unconfirmed-le (mark n full s.passes))

pub weight-confirmed :
    (bound : ℕ) (s : Search)
    → entry (best s) s.passes ≡ some false
    → weight bound (passed (best s) true s) < weight bound s
unfolding weight passed
weight-confirmed bound s h = omega (
  arith,
  greatest-mark (best s) true s.passes,
  unconfirmed-mark_full (best s) s.passes,
  unconfirmed_of_entry s.passes h,
)

weigh-lt :
    (bound n top : ℕ) {m : ℕ} (ps : List (ℕ × Bool))
    → n ≤ bound
    → n < top
    → m ≡ n
    → weigh bound m (retain (λ (p : ℕ × Bool). ltb p.0 n) ps) < weigh bound top ps
weigh-lt bound n top ps h k e =
    let steps : (n + 1) * (2 * bound + 4) ≤ top * (2 * bound + 4) = grind arith in
    let kept = retain (λ (p : ℕ × Bool). ltb p.0 n) ps in
    rw e (omega (arith, unconfirmed-le kept, steps))

pub weight-failed :
    (bound n : ℕ) (s : Search)
    → n ≤ bound
    → n < ceiling bound s.fail
    → weight bound (failed n s) < weight bound s
unfolding weight failed
weight-failed bound n s h k =
    let e : lowest s.fail n ≡ n = omega (arith, ceiling-lowest bound n s.fail h) in
    weigh-lt bound n (ceiling bound s.fail) s.passes h k e

pub weight-cap : (bound n : ℕ) (s : Search) → weight bound (cap n s) ≡ weight bound s
unfolding weight cap
weight-cap bound n s = refl

pub best-passed : (n : ℕ) (full : Bool) (s : Search) → best s ≤ n → best (passed n full s) ≡ n
unfolding passed
best-passed n full s h = greatest-mark n full s.passes h

pub best-cap : (n : ℕ) (s : Search) → best (cap n s) ≡ best s
unfolding cap
best-cap n s = refl

pub new-weight : (bound n : ℕ) → weight bound (new n) ≡ (bound + 1) * (2 * bound + 6)
unfolding weight new
new-weight bound n = omega arith
