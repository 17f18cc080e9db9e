-- ===== src/Benchmark/Search/Answer.antt =====
-- What `next` chooses, in terms of what is known: it never panics on a valid search.
use capture_room.Prelude.{
  ℕ, suc, ◌+◌, ◌*◌, ◌≤◌, ◌<◌, ◌≡◌, refl, ◌⊎◌, inl, inr, Bool, true, false, Option, none, some, List,
  [], ◌∷◌, arith, ◌-◌, ◌/◌, min, if◌then◌else◌, ◌==◌, ◌∙◌,
}
use capture_room.Benchmark.Search.{
  Search, Next, measure, done, next, best, greatest, entry, confirm,
}
use capture_room.Benchmark.Search.Invariant.{IsValid, Below, ceiling, greatest-lt}

-- No count above the best one is left to try.
abbrev pub IsSettled : ℕ → Search → Type 0
IsSettled bound s = (s.fail ≡ some (suc (best s))) ⊎ ((s.fail ≡ none) × (s.limit ≤ best s))

pub data Decides (bound : ℕ) (s : Search) : Next → Type 0 where
  bisects :
      (n hi : ℕ)
      → s.fail ≡ some hi
      → suc (best s) < hi
      → n ≡ best s + (hi - best s) / 2
      → Decides bound s (measure n true)
  grows :
      (n : ℕ)
      → s.fail ≡ none
      → best s < s.limit
      → n ≡ (if best s == 0 then 1 else min (best s * 2) s.limit)
      → Decides bound s (measure n false)
  confirms :
      IsSettled bound s
      → 0 < best s
      → entry (best s) s.passes ≡ some false
      → Decides bound s (measure (best s) true)
  ends :
      IsSettled bound s
      → (best s ≡ 0) ⊎ (entry (best s) s.passes ≡ some true)
      → Decides bound s (done (best s))

abbrev Chosen : ℕ → Search → Type 0
Chosen bound s = (r : Next) × (next s ≡ some r) × Decides bound s r

pub next_bisect :
    (hi : ℕ) (s : Search)
    → s.fail ≡ some hi
    → suc (best s) < hi
    → next s ≡ some (measure (best s + (hi - best s) / 2) true)
unfolding next
next_bisect hi s e h = ground arith

next_grow :
    (s : Search)
    → s.fail ≡ none
    → best s < s.limit
    → best s * 2 < 4294967296
    → next s ≡ some (measure (if best s == 0 then 1 else min (best s * 2) s.limit) false)
unfolding next
next_grow s e h small = ground arith

next_settled : (bound : ℕ) (s : Search) → IsSettled bound s → next s ≡ confirm s.passes (best s)
unfolding next
next_settled bound s h = ground arith

confirm_cases :
    (top : ℕ) (ps : List (ℕ × Bool))
    → Below top ps
    → ((greatest ps ≡ 0) × (confirm ps (greatest ps) ≡ some (done (greatest ps))))
      ⊎ ((entry (greatest ps) ps ≡ some true)
          × (confirm ps (greatest ps) ≡ some (done (greatest ps))))
      ⊎ ((0 < greatest ps)
          × (entry (greatest ps) ps ≡ some false)
          × (confirm ps (greatest ps) ≡ some (measure (greatest ps) true)))
confirm_cases top [] b = inl (refl, refl)
confirm_cases top ((n, full) ∷ ps) b = ground arith

settled-Chosen : (bound : ℕ) (s : Search) → IsValid bound s → IsSettled bound s → Chosen bound s
settled-Chosen bound s v h = elim (confirm_cases _ s.passes v.ordered) [
  | inl (z, e) ↦ (_, next_settled bound s h ∙ e, ends h (inl z))
  | inr (inl (full, e)) ↦ (_, next_settled bound s h ∙ e, ends h (inr full))
  | inr (inr (p, quick, e)) ↦ (_, next_settled bound s h ∙ e, confirms h p quick)
]

-- On a valid search of up to 2^31 - 1 feeds `next` never panics. With a failed count that leaves others between it and the
-- best one, it measures in full halfway between them; with none failed and the limit not reached, it measures quickly twice the best count (1 at
-- first), or the limit if that is less; and otherwise it measures the best count in full if that was not done, and
-- is done with it if it was, or if nothing passed.
pub next-Decides :
    (bound : ℕ) (s : Search)
    → bound * 2 < 4294967296
    → IsValid bound s
    → (r : Next) × (next s ≡ some r) × Decides bound s r
next-Decides bound s small v = go s.fail refl
  where
    open_top : s.fail ≡ none → (best s < s.limit) ⊎ (s.limit ≤ best s) → Chosen bound s
    open_top e (inl h) = (_, next_grow s e h (omega arith), grows _ e h refl)
    open_top e (inr h) = settled-Chosen bound s v (inr (e, h))

    below_top :
        (hi : ℕ) → s.fail ≡ some hi → (suc (best s) < hi) ⊎ (hi ≡ suc (best s)) → Chosen bound s
    below_top hi e (inl h) = (_, next_bisect hi s e h, bisects _ hi e h refl)
    below_top hi e (inr h) = settled-Chosen bound s v (inl (rw (e, h)))

    go : (f : Option ℕ) → s.fail ≡ f → Chosen bound s
    go none e = open_top e (omega arith)
    go (some hi) e =
        let top : ceiling bound s.fail ≡ hi = ground arith in
        let below = greatest-lt (ceiling bound s.fail) s.passes v.positive v.ordered in
        below_top hi e (omega arith)
