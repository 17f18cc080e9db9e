-- ===== src/Benchmark/Search.antt =====
-- node/src/benchmark/search.rs: choosing how many feeds each step runs. The map of passed counts is
-- its list of entries, the greatest count first. `none` is a panic: an index that is missing, an
-- `unwrap` of nothing, or 32-bit arithmetic out of range.
pub mod Invariant
pub mod Answer
pub mod Measure
mod Examples
use capture_room.Prelude.{
  ℕ, ◌+◌, ◌/◌, ◌≡◌, min, max, Bool, true, false, ◌||◌, Option, none, some, List, [], ◌∷◌, ltb, leb,
  ◌==◌, if◌then◌else◌, retain, sub?, mul32?, ◌>>=◌,
}

pub data Next : Type 0 where
  measure : ℕ → Bool → Next
  done : ℕ → Next

pub feeds : Next → Option ℕ
feeds (measure n full) = some n
feeds (done n) = none

pub record Search : Type 0 where
  pub limit : ℕ
  pub passes : List (ℕ × Bool)
  pub fail : Option ℕ

unfoldable pub new : ℕ → Search
new limit = record { limit = max limit 1; passes = []; fail = none }

-- The first entry's count: `keys().next_back()`, or 0.
abbrev pub greatest : List (ℕ × Bool) → ℕ
greatest [] = 0
greatest ((n, full) ∷ ps) = n

abbrev pub best : Search → ℕ
best s = greatest s.passes

-- `passes[&n]`.
abbrev pub entry : ℕ → List (ℕ × Bool) → Option Bool
entry n [] = none
entry n ((m, full) ∷ ps) = if m == n then some full else entry n ps

-- Whether a failing count leaves room above `lo`.
abbrev is_narrowing : Option ℕ → ℕ → Option Bool
is_narrowing none lo = some false
is_narrowing (some hi) lo = do gap ← sub? hi lo; some (ltb 1 gap)

abbrev bisect : Option ℕ → ℕ → Option Next
bisect none lo = none
bisect (some hi) lo = do gap ← sub? hi lo; some (measure (lo + gap / 2) true)

abbrev is_some : Option ℕ → Bool
is_some none = false
is_some (some n) = true

abbrev grow : ℕ → ℕ → Option Next
grow limit lo =
    if lo == 0
    then some (measure 1 false)
    else do double ← mul32? lo 2; some (measure (min double limit) false)

abbrev pub confirm : List (ℕ × Bool) → ℕ → Option Next
confirm ps lo =
    if lo == 0
    then some (done lo)
    else do full ← entry lo ps; some (if full then done lo else measure lo true)

unfoldable pub next : Search → Option Next
unfolding sub? mul32?
next s =
    let lo = best s in
    is_narrowing s.fail lo >>= λ narrowing.
    if narrowing
    then bisect s.fail lo
    else if is_some s.fail || leb s.limit lo
    then confirm s.passes lo
    else grow s.limit lo

-- `entry(n).or_default() |= full`.
abbrev pub mark : ℕ → Bool → List (ℕ × Bool) → List (ℕ × Bool)
mark n full [] = (n, full) ∷ []
mark n full ((m, old) ∷ ps) =
    if m == n
    then (m, old || full) ∷ ps
    else if ltb m n
    then (n, full) ∷ (m, old) ∷ ps
    else (m, old) ∷ mark n full ps

unfoldable pub passed : ℕ → Bool → Search → Search
passed n full s = record s { passes = mark n full s.passes }

-- `map_or(n, |f| f.min(n))`.
abbrev pub lowest : Option ℕ → ℕ → ℕ
lowest none n = n
lowest (some f) n = min f n

unfoldable pub failed : ℕ → Search → Search
failed n s = record s {
  fail = some (lowest s.fail n);
  passes = retain (λ (p : ℕ × Bool). ltb p.0 n) s.passes;
}

unfoldable pub cap : ℕ → Search → Search
cap n s = record s { limit = min s.limit n }

unfoldable pub next_if_passed : Search → ℕ → Bool → Option (Option ℕ)
unfolding next passed feeds
next_if_passed s n full = do after ← next (passed n full s); some (feeds after)
