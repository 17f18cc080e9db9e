-- ===== src/Replay/Clip/Stretch.antt =====
-- The loops of `clip` over the segments: each stays in range and within one gapless stretch.
use capture_room.Prelude.{
  ℕ, zero, suc, ◌+◌, ◌≤◌, ◌<◌, ◌≡◌, ◌≢◌, refl, ◌⊎◌, inl, inr, Bool, true, false, Option, some, List,
  [], ◌∷◌, arith, length, get_elem?, subst, Bool-cases, Option-cases,
}
use capture_room.Replay.{Segment}
use capture_room.Replay.Clip.{position, joins, rewind, advance, find_within}

-- Each segment from `a` to `b` but the last is followed on by the next.
abbrev pub Joined : List Segment → ℕ → ℕ → Type 0
Joined ss a b = (j : ℕ) → a ≤ j → j < b → joins ss j ≡ true

pub position_lem :
    (p : Segment → Bool) (ss : List Segment) (at : ℕ) → position p ss ≡ some at → at < length ss
position_lem p [] at e = absurd (cc)
position_lem p (s ∷ ss) at e = elim (Option-cases (position p ss)) [
  | inl n ↦ ground arith
  | inr (i, found) ↦ ground (arith, position_lem p ss i found)
]

same : (y s : Segment) → some y ≡ some s → y ≡ s
same y s q = cc

-- The segment found passes, and none before it does.
pub position_first :
    (p : Segment → Bool) (ss : List Segment) (at : ℕ)
    → position p ss ≡ some at
    → ((s : Segment) × (get_elem? ss at ≡ some s) × (p s ≡ true))
      × ((j : ℕ) (s : Segment) → j < at → get_elem? ss j ≡ some s → p s ≡ false)
position_first p [] at e = absurd (cc)
position_first p (x ∷ ss) at e = elim (Bool-cases (p x)) [
  | inl t ↦ here (ground (arith, e, t)) t
  | inr f ↦ elim (Option-cases (position p ss)) [
    | inl n ↦ ground arith
    | inr (i, found) ↦ there i (position_first p ss i found) (ground (arith, e, f, found)) f
  ]
]
  where
    here :
        0 ≡ at
        → p x ≡ true
        → ((s : Segment) × (get_elem? (x ∷ ss) at ≡ some s) × (p s ≡ true))
          × ((j : ℕ) (s : Segment) → j < at → get_elem? (x ∷ ss) j ≡ some s → p s ≡ false)
    here z t =
        subst
          (λ n.
            ((s : Segment) × (get_elem? (x ∷ ss) n ≡ some s) × (p s ≡ true))
            × ((j : ℕ) (s : Segment) → j < n → get_elem? (x ∷ ss) j ≡ some s → p s ≡ false))
          z ((x, refl, t), λ j s h g. absurd (omega arith))

    there :
        (i : ℕ)
        → ((s : Segment) × (get_elem? ss i ≡ some s) × (p s ≡ true))
          × ((j : ℕ) (s : Segment) → j < i → get_elem? ss j ≡ some s → p s ≡ false)
        → suc i ≡ at
        → p x ≡ false
        → ((s : Segment) × (get_elem? (x ∷ ss) at ≡ some s) × (p s ≡ true))
          × ((j : ℕ) (s : Segment) → j < at → get_elem? (x ∷ ss) j ≡ some s → p s ≡ false)
    there i k z f =
        subst
          (λ n.
            ((s : Segment) × (get_elem? (x ∷ ss) n ≡ some s) × (p s ≡ true))
            × ((j : ℕ) (s : Segment) → j < n → get_elem? (x ∷ ss) j ≡ some s → p s ≡ false))
          z (k.0, before k.1)
      where
        before :
            ((j : ℕ) (s : Segment) → j < i → get_elem? ss j ≡ some s → p s ≡ false)
            → (j : ℕ) (s : Segment) → j < suc i
            → get_elem? (x ∷ ss) j ≡ some s
            → p s ≡ false
        before k zero s h g = subst (λ y. p y ≡ false) ((same x s g)) f
        before k (suc j) s h g = k j s (omega (arith, h)) g

Joined-above :
    (ss : List Segment) (a i : ℕ) → Joined ss a i → joins ss i ≡ true → Joined ss a (suc i)
Joined-above ss a i h e j l u = go (omega arith)
  where
    go : (j < i) ⊎ (j ≡ i) → joins ss j ≡ true
    go (inl k) = h j l k
    go (inr q) = rw q e

Joined-below :
    (ss : List Segment) (a b : ℕ) → Joined ss (suc a) b → joins ss a ≡ true → Joined ss a b
Joined-below ss a b h e j l u = go (omega arith)
  where
    go : (suc a ≤ j) ⊎ (j ≡ a) → joins ss j ≡ true
    go (inl k) = h j k u
    go (inr q) = rw q e

pub joins-lt : (ss : List Segment) (j : ℕ) → joins ss j ≡ true → suc j < length ss
joins-lt [] j e = absurd (cc)
joins-lt (a ∷ []) j e = absurd (cc)
joins-lt (a ∷ b ∷ ss) zero e = omega arith
joins-lt (a ∷ b ∷ ss) (suc j) e = omega (arith, joins-lt (b ∷ ss) j e)

pub rewind_lem : (ss : List Segment) (at : ℕ) → (rewind ss at ≤ at) × Joined ss (rewind ss at) at
rewind_lem ss zero = (omega arith, λ j h k. absurd (omega arith))
rewind_lem ss (suc i) = elim (Bool-cases (joins ss i)) [
  | inl e ↦
      let (le, joined) = rewind_lem ss i in
      rw e (omega arith, Joined-above ss (rewind ss i) i joined e)
  | inr e ↦ rw e (omega arith, λ j h k. absurd (omega arith))
]

-- It goes back as far as segments join.
pub rewind_stops : (ss : List Segment) (at k : ℕ) → suc k ≡ rewind ss at → joins ss k ≡ false
rewind_stops ss zero k e = absurd (omega arith)
rewind_stops ss (suc i) k e = elim (Bool-cases (joins ss i)) [
  | inl t ↦ rewind_stops ss i k (rw t at e)
  | inr f ↦ ground (arith, e, f)
]

-- With a round for each segment, it goes on as far as segments join.
pub advance_stops :
    (fuel : ℕ) (ss : List Segment) (at : ℕ)
    → at < length ss
    → length ss ≤ at + fuel
    → joins ss (advance fuel ss at) ≡ false
advance_stops zero ss at h k = absurd (omega arith)
advance_stops (suc fuel) ss at h k = elim (Bool-cases (joins ss at)) [
  | inl e ↦ rw e (advance_stops fuel ss (suc at) (joins-lt ss at e) (omega (arith, k)))
  | inr e ↦ rw (e, e) refl
]

pub advance_lem :
    (fuel : ℕ) (ss : List Segment) (at : ℕ)
    → at < length ss
    → (at ≤ advance fuel ss at)
      × (advance fuel ss at < length ss)
      × Joined ss at (advance fuel ss at)
advance_lem zero ss at h = (omega arith, h, λ j a b. absurd (omega arith))
advance_lem (suc fuel) ss at h = elim (Bool-cases (joins ss at)) [
  | inl e ↦
      let (le, lt, joined) = advance_lem fuel ss (suc at) (joins-lt ss at e) in
      rw e (omega arith, lt, Joined-below ss at (advance fuel ss (suc at)) joined e)
  | inr e ↦ rw e (omega arith, h, λ j a b. absurd (omega arith))
]

pub get_elem?_lt :
    {A : Type 0} (xs : List A) (i : ℕ) → i < length xs → (x : A) × (get_elem? xs i ≡ some x)
get_elem?_lt [] i h = absurd (omega arith)
get_elem?_lt (x ∷ xs) zero h = (x, refl)
get_elem?_lt (x ∷ xs) (suc i) h = get_elem?_lt xs i (omega arith)

-- What a search from `i` over `count` segments finds.
pub record Found (p : Segment → Bool) (ss : List Segment) (i count : ℕ) (r : Option ℕ)
    : Type 0 where
  pub at : ℕ
  pub found : r ≡ some at
  pub from_i : i ≤ at
  pub in_range : at < i + count
  pub segment : Segment
  pub there : get_elem? ss at ≡ some segment
  pub passes : p segment ≡ true
  pub first : (j : ℕ) (s : Segment) → i ≤ j → j < at → get_elem? ss j ≡ some s → p s ≡ false

pub find_within_lem :
    (count i k : ℕ) (p : Segment → Bool) (ss : List Segment) (s : Segment)
    → i ≤ k
    → k < i + count
    → k < length ss
    → get_elem? ss k ≡ some s
    → p s ≡ true
    → Found p ss i count (find_within count i p ss)
find_within_lem zero i k p ss s h l r g e = absurd (omega arith)
find_within_lem (suc count) i k p ss s h l r g e =
    go (get_elem?_lt ss i (omega arith))
      λ n. find_within_lem count (suc i) k p ss s n (omega arith) r g e
  where
    miss : (x : Segment) → get_elem? ss i ≡ some x → p x ≡ false → i ≢ k
    miss x gx f q = cc

    before :
        (x : Segment)
        → p x ≡ false
        → get_elem? ss i ≡ some x
        → (at : ℕ)
        → ((j : ℕ) (s : Segment) → suc i ≤ j → j < at → get_elem? ss j ≡ some s → p s ≡ false)
        → (j : ℕ) (s : Segment) → j < at
        → get_elem? ss j ≡ some s
        → (suc i ≤ j) ⊎ (i ≡ j)
        → p s ≡ false
    before x f gx at later j s k q (inl h) = later j s h k q
    before x f gx at later j s k q (inr e) = cc

    go :
        ((x : Segment) × (get_elem? ss i ≡ some x))
        → (suc i ≤ k → Found p ss (suc i) count (find_within count (suc i) p ss))
        → Found p ss i (suc count) (find_within (suc count) i p ss)
    go (x, gx) rest = elim (Bool-cases (p x)) [
      | inl t ↦
          rw (gx, t, find_within)
            (record {
              at = i;
              found = refl;
              from_i = omega arith;
              in_range = omega arith;
              segment = x;
              there = gx;
              passes = t;
              first = λ j s h k q. absurd (omega arith);
            })
      | inr f ↦
          let ne = miss x gx f in
          let m = rest (omega arith) in
          rw (gx, f, find_within)
            (record {
              at = m.at;
              found = m.found;
              from_i = omega (arith, m.from_i);
              in_range = omega (arith, m.in_range);
              segment = m.segment;
              there = m.there;
              passes = m.passes;
              first = λ j s h k q. before x f gx m.at m.first j s k q (omega (arith, h));
            })
    ]
