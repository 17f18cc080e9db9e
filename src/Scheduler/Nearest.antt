-- ===== src/Scheduler/Nearest.antt =====
-- The search over a few days finds the nearest start of all.
use capture_room.Prelude.{
  ℕ, ◌/◌, ◌≤◌, ◌<◌, ◌≡◌, refl, sym, subst, inl, inr, Bool, true, false, Option, none, some, List,
  ltb, leb, ltb→lt, lt→ltb, leb→le, le→leb, ==_iff, arith, retain, Has, Has-retain, Bool-cases,
}
use capture_room.Scheduler.{
  Chrono, day, Rule, ScheduleKind, once, weekly, monthly, matches, matches_kind, start_on, to_list,
  is_date, range, dates_of, starts, smallest, largest, next_after, latest_at_or_before,
}
use capture_room.Scheduler.Search.{
  Has-keep_some, keep_some-Has, retain-Has, IsSmallest, IsLargest, smallest-IsSmallest,
  largest-IsLargest,
}

module _ (ch : Chrono) where
  -- A start of the rule on any date whatever.
  abbrev pub IsStart : Rule → ℕ → Type 0
  IsStart r s = (d : ℕ) × (matches ch r d ≡ true) × (start_on ch r d ≡ some s)

  -- The first start after t, if there is one.
  abbrev pub IsNext : Rule → ℕ → Option ℕ → Type 0
  IsNext r t none = (s : ℕ) → IsStart r s → s ≤ t
  IsNext r t (some s) = IsStart r s × (t < s) × ((u : ℕ) → IsStart r u → t < u → s ≤ u)

  -- The last start up to t, if there is one.
  abbrev pub IsLatest : Rule → ℕ → Option ℕ → Type 0
  IsLatest r t none = (s : ℕ) → IsStart r s → t < s
  IsLatest r t (some s) = IsStart r s × (s ≤ t) × ((u : ℕ) → IsStart r u → u ≤ t → u ≤ s)

  to_list-Has : (o : Option ℕ) (d : ℕ) → Has d (to_list o) → is_date o d ≡ true
  to_list-Has none d h = absurd h
  to_list-Has (some a) d (inl e) = (==_iff a d).1 (sym e)
  to_list-Has (some a) d (inr h) = absurd h

  pub Has-to_list : (o : Option ℕ) (d : ℕ) → is_date o d ≡ true → Has d (to_list o)
  Has-to_list none d e = absurd (cc)
  Has-to_list (some a) d e = inl (sym ((==_iff a d).0 e))

  dates_of-matches :
      (r : Rule) (today : ℕ) (ahead : Bool) (d : ℕ)
      → Has d (dates_of ch r.kind r today ahead)
      → matches ch r d ≡ true
  unfolding matches
  dates_of-matches r today ahead d = by_kind r.kind refl ahead
    where
      by_kind :
          (k : ScheduleKind)
          → r.kind ≡ k
          → (ahead : Bool) → Has d (dates_of ch k r today ahead)
          → matches_kind ch r.kind r d ≡ true
      by_kind once e ahead h = rw e (to_list-Has r.date d h)
      by_kind weekly e true h = (retain-Has (matches ch r) (range true 1 8 today) d h).1
      by_kind weekly e false h = (retain-Has (matches ch r) (range false 8 1 today) d h).1
      by_kind monthly e true h = (retain-Has (matches ch r) _ d h).1
      by_kind monthly e false h = (retain-Has (matches ch r) _ d h).1

  starts-IsStart :
      (r : Rule) (t : ℕ) (ahead : Bool) (s : ℕ) → Has s (starts ch r t ahead) → IsStart r s
  unfolding starts
  starts-IsStart r t ahead s h =
      let k = keep_some-Has (start_on ch r) (dates_of ch r.kind r (ch.local t / day) ahead) s h in
      (k.0, dates_of-matches r (ch.local t / day) ahead k.0 k.1, k.2)

  pub Has-starts :
      (r : Rule) (t : ℕ) (ahead : Bool) (d s : ℕ)
      → Has d (dates_of ch r.kind r (ch.local t / day) ahead)
      → start_on ch r d ≡ some s
      → Has s (starts ch r t ahead)
  unfolding starts
  Has-starts r t ahead d s h e =
      Has-keep_some (start_on ch r) (dates_of ch r.kind r (ch.local t / day) ahead) d s h e

  -- Every start after t has one among the candidates that is no later, and still after t.
  abbrev pub CoversNext : Rule → ℕ → Type 0
  CoversNext r t =
      (u : ℕ) → IsStart r u → t < u → (s : ℕ) × Has s (starts ch r t true) × (t < s) × (s ≤ u)

  abbrev pub CoversLatest : Rule → ℕ → Type 0
  CoversLatest r t =
      (u : ℕ) → IsStart r u → u ≤ t → (s : ℕ) × Has s (starts ch r t false) × (s ≤ t) × (u ≤ s)

  pub covered-IsNext : (r : Rule) (t : ℕ) → CoversNext r t → IsNext r t (next_after ch r t)
  unfolding next_after
  covered-IsNext r t c = by_least (smallest later) (smallest-IsSmallest later)
    where
      later : List ℕ
      later = retain (λ s. ltb t s) (starts ch r t true)

      by_least : (o : Option ℕ) → IsSmallest later o → IsNext r t o
      by_least none h = λ u k. elim (Bool-cases (leb u t)) [
        | inl e ↦ leb→le u t e
        | inr e ↦
            let f = c u k (ground (arith, e)) in
            absurd (h f.0 (Has-retain (λ s. ltb t s) f.0 _ (lt→ltb t f.0 f.2) f.1))
      ]
      by_least (some s) h =
          let k = retain-Has (λ s. ltb t s) (starts ch r t true) s h.0 in
          (
            starts-IsStart r t true s k.0,
            ltb→lt t s k.1,
            λ u k l.
                let f = c u k l in
                let b =
                  h.1 f.0
                    (Has-retain (λ s. ltb t s) f.0 (starts ch r t true) (lt→ltb t f.0 f.2) f.1) in
                omega (arith, b, f.3),
          )

  pub covered-IsLatest :
      (r : Rule) (t : ℕ) → CoversLatest r t → IsLatest r t (latest_at_or_before ch r t)
  unfolding latest_at_or_before
  covered-IsLatest r t c = by_greatest (largest earlier) (largest-IsLargest earlier)
    where
      earlier : List ℕ
      earlier = retain (λ s. leb s t) (starts ch r t false)

      by_greatest : (o : Option ℕ) → IsLargest earlier o → IsLatest r t o
      by_greatest none h = λ u k. elim (Bool-cases (leb u t)) [
        | inl e ↦
            let f = c u k (leb→le u t e) in
            absurd
              (h f.0 (Has-retain (λ s. leb s t) f.0 (starts ch r t false) (le→leb f.0 t f.2) f.1))
        | inr e ↦ ground (arith, e)
      ]
      by_greatest (some s) h =
          let k = retain-Has (λ s. leb s t) (starts ch r t false) s h.0 in
          (
            starts-IsStart r t false s k.0,
            leb→le s t k.1,
            λ u k l.
                let f = c u k l in
                let b =
                  h.1 f.0
                    (Has-retain (λ s. leb s t) f.0 (starts ch r t false) (le→leb f.0 t f.2) f.1) in
                omega (arith, b, f.3),
          )

  -- Whatever the rule, what is found is a start of it that has come.
  pub latest_at_or_before-IsStart :
      (r : Rule) (t s : ℕ) → latest_at_or_before ch r t ≡ some s → IsStart r s × (s ≤ t)
  unfolding latest_at_or_before
  latest_at_or_before-IsStart r t s e =
      let earlier : List ℕ = retain (λ s. leb s t) (starts ch r t false) in
      let h : IsLargest earlier (some s) =
        subst (IsLargest earlier) e (largest-IsLargest earlier) in
      let k = retain-Has (λ s. leb s t) (starts ch r t false) s h.0 in
      (starts-IsStart r t false s k.0, leb→le s t k.1)
