-- ===== src/Benchmark/Search/Invariant.antt =====
-- The search's invariant, and that every operation keeps it.
use capture_room.Prelude.{
  ℕ, suc, ◌≤◌, ◌<◌, ◌≡◌, refl, Bool, Option, none, some, List, [], ◌∷◌, arith, ltb, retain, min,
  max,
}
use capture_room.Benchmark.Search.{Search, new, mark, passed, failed, cap, greatest, lowest}

-- The entries fall strictly, stay below `n`, and are of at least one feed.
abbrev pub Below : ℕ → List (ℕ × Bool) → Type 0
Below n [] = Unit {0}
Below n ((m, full) ∷ ps) = (m < n) × (0 < m) × Below m ps

-- The least count that is known not to be sustained; above the bound while none is.
abbrev pub ceiling : ℕ → Option ℕ → ℕ
ceiling bound none = suc bound
ceiling bound (some n) = n

pub greatest-lt : (n : ℕ) (ps : List (ℕ × Bool)) → 0 < n → Below n ps → greatest ps < n
greatest-lt n [] p b = p
greatest-lt n ((m, full) ∷ ps) p b = b.0

pub record IsValid (bound : ℕ) (s : Search) : Type 0 where
  pub limited : s.limit ≤ bound
  pub ordered : Below (ceiling bound s.fail) s.passes
  pub positive : 0 < ceiling bound s.fail
  pub bounded : ceiling bound s.fail ≤ suc bound

pub new-IsValid : (limit : ℕ) → IsValid (max limit 1) (new limit)
unfolding new
new-IsValid limit = record {
  limited = omega arith;
  ordered = tt;
  positive = omega arith;
  bounded = omega arith;
}

pub mark-Below :
    (n : ℕ) (full : Bool) (top : ℕ) (ps : List (ℕ × Bool))
    → 0 < n
    → n < top
    → Below top ps
    → Below top (mark n full ps)
mark-Below n full top [] p h b = (h, p, tt)
mark-Below n full top ((m, old) ∷ ps) p h b = ground (arith, mark-Below n full m ps p)

pub passed-IsValid :
    (bound n : ℕ) (full : Bool) (s : Search)
    → 0 < n
    → n < ceiling bound s.fail
    → IsValid bound s
    → IsValid bound (passed n full s)
unfolding passed
passed-IsValid bound n full s p h v = record {
  limited = v.limited;
  ordered = mark-Below n full _ s.passes p h v.ordered;
  positive = v.positive;
  bounded = v.bounded;
}

Below-mono : (m n : ℕ) (ps : List (ℕ × Bool)) → m ≤ n → Below m ps → Below n ps
Below-mono m n [] h b = tt
Below-mono m n ((k, full) ∷ ps) h b = (omega arith, b.1, b.2)

pub retain-Below :
    (n top : ℕ) (ps : List (ℕ × Bool))
    → Below top ps
    → Below (min top n) (retain (λ (p : ℕ × Bool). ltb p.0 n) ps)
retain-Below n top [] b = tt
retain-Below n top ((m, full) ∷ ps) b =
    let rest = retain (λ (p : ℕ × Bool). ltb p.0 n) ps in
    ground (
      arith,
      retain-Below n m ps b.2,
      Below-mono (min m n) m rest,
      Below-mono (min m n) (min top n) rest,
    )

-- What `failed` leaves is below the count that failed, and no greater than before.
pub greatest-retain :
    (n top : ℕ) (ps : List (ℕ × Bool))
    → 0 < n
    → Below top ps
    → let left = greatest (retain (λ (p : ℕ × Bool). ltb p.0 n) ps) in
      (left < n) × (left ≤ greatest ps)
greatest-retain n top [] p b = (p, omega arith)
greatest-retain n top ((m, full) ∷ ps) p b =
    ground (arith, greatest-retain n m ps p b.2, greatest-lt m ps)

pub ceiling-lowest : (bound n : ℕ) (f : Option ℕ) → n ≤ bound → lowest f n ≡ min (ceiling bound f) n
ceiling-lowest bound n none h = omega arith
ceiling-lowest bound n (some f) h = refl

pub failed-IsValid :
    (bound n : ℕ) (s : Search) → 0 < n → n ≤ bound → IsValid bound s → IsValid bound (failed n s)
unfolding failed
failed-IsValid bound n s p h v =
    let e = ceiling-lowest bound n s.fail h in
    record {
      limited = v.limited;
      ordered = rw e (retain-Below n _ s.passes v.ordered);
      positive = ground (arith, v.positive);
      bounded = ground (arith, v.bounded);
    }

pub cap-IsValid : (bound n : ℕ) (s : Search) → IsValid bound s → IsValid bound (cap n s)
unfolding cap
cap-IsValid bound n s v = ground arith
