-- ===== src/Scheduler/Cover.antt =====
-- Every start of a schedule that is weekly or for one day is answered by a candidate.
use capture_room.Prelude.{
  ℕ, zero, suc, ◌+◌, ◌-◌, ◌*◌, ◌/◌, ◌%◌, ◌≤◌, ◌<◌, ◌≡◌, ◌≢◌, refl, sym, ◌∙◌, ap, subst, inl, inr,
  Bool, true, false, leb, leb→le, arith, Has, Has-retain, Bool-cases,
}
use capture_room.Scheduler.{
  Chrono, day, Rule, ScheduleKind, once, weekly, monthly, matches, range, dates_of, next_after,
  latest_at_or_before, starts,
}
use capture_room.Scheduler.Window.{IsZone, before, beyond, ordered, start_on-some}
use capture_room.Scheduler.Search.{days_from-Has, days_back-Has}
use capture_room.Scheduler.Nearest.{
  IsNext, IsLatest, CoversNext, CoversLatest, Has-starts, Has-to_list, covered-IsNext,
  covered-IsLatest,
}

module _ (ch : Chrono) (zone : IsZone ch) (r : Rule) where
  once-Has :
      (today : ℕ) (ahead : Bool) (d : ℕ)
      → r.kind ≡ once
      → matches ch r d ≡ true
      → Has d (dates_of ch r.kind r today ahead)
  unfolding matches
  once-Has today ahead d k = rw k (λ m. Has-to_list ch r.date d m)

  once-CoversNext : r.kind ≡ once → (t : ℕ) → CoversNext ch r t
  once-CoversNext k t u (d, m, e) l =
      (u, Has-starts ch r t true d u (once-Has (ch.local t / day) true d k m) e, l, omega arith)

  once-CoversLatest : r.kind ≡ once → (t : ℕ) → CoversLatest ch r t
  once-CoversLatest k t u (d, m, e) l =
      (u, Has-starts ch r t false d u (once-Has (ch.local t / day) false d k m) e, l, omega arith)

  weeks : (k d : ℕ) → ch.weekday (d + 7 * k) ≡ ch.weekday d
  weeks zero d = ap ch.weekday (omega arith)
  weeks (suc k) d =
      subst (λ n. ch.weekday n ≡ ch.weekday d) {x = d + 7 * k + 7} (omega arith)
        (zone.week (d + 7 * k) ∙ weeks k d)

  -- Two dates a number of weeks apart.
  same_week : (c d k : ℕ) → r.kind ≡ weekly → d ≡ c + 7 * k → matches ch r d ≡ matches ch r c
  unfolding matches
  same_week c d k w e = rw (w, e, weeks k c) refl

  weekly-Has_ahead :
      (today d : ℕ)
      → r.kind ≡ weekly
      → matches ch r d ≡ true
      → today ≤ d + 1
      → d ≤ today + 8
      → Has d (dates_of ch r.kind r today true)
  weekly-Has_ahead today d w m a b =
      subst (λ k. Has d (dates_of ch k r today true)) (sym w)
        (Has-retain (matches ch r) d (range true 1 8 today) m
          (days_from-Has 10 (today - 1) d (omega (arith, a)) (omega (arith, b))))

  weekly-Has_behind :
      (today d : ℕ)
      → r.kind ≡ weekly
      → matches ch r d ≡ true
      → today ≤ d + 8
      → d ≤ today + 1
      → Has d (dates_of ch r.kind r today false)
  weekly-Has_behind today d w m a b =
      subst (λ k. Has d (dates_of ch k r today false)) (sym w)
        (Has-retain (matches ch r) d (range false 8 1 today) m
          (days_back-Has 10 (today + 1) d (omega (arith, b)) (omega (arith, a))))

  module _ (h : r.start < 1440) (w : r.kind ≡ weekly) where
    weekly-CoversNext : (t : ℕ) → CoversNext ch r t
    weekly-CoversNext t u (d, m, e) l = elim (Bool-cases (leb d (ch.local t / day + 8))) [
      | inl k ↦ (
        u,
        Has-starts ch r t true d u
            (weekly-Has_ahead (ch.local t / day) d w m recent (leb→le d (ch.local t / day + 8) k))
            e,
        l,
        omega arith,
      )
      | inr k ↦ earlier k
    ]
      where
        today : ℕ
        today = ch.local t / day

        recent : today ≤ d + 1
        recent = elim (Bool-cases (leb today (d + 1))) [
          | inl k ↦ leb→le today (d + 1) k
          | inr k ↦
              let b = before ch zone r d t u h e (ground (arith, k)) in absurd (omega (arith, b, l))
        ]

        earlier :
            leb d (ch.local t / day + 8) ≡ false
            → (s : ℕ) × Has s (starts ch r t true) × (t < s) × (s ≤ u)
        earlier k =
            let far : today + 9 ≤ d = ground (arith, k) in
            let c : ℕ = today + 2 + (d - (today + 2)) % 7 in
            let n : ℕ = (d - (today + 2)) / 7 in
            let q : d ≡ c + 7 * n = omega (arith, far) in
            let p = start_on-some ch zone r c in
            (
              p.0,
              Has-starts ch r t true c p.0
                  (weekly-Has_ahead today c w (sym (same_week c d n w q) ∙ m) (omega arith)
                    (omega arith))
                  p.1,
              beyond ch zone r c t p.0 h p.1 (omega arith),
              ordered ch zone r c d p.0 u h p.1 e (omega (arith, far)),
            )

    weekly-CoversLatest : (t : ℕ) → CoversLatest ch r t
    weekly-CoversLatest t u (d, m, e) l = elim (Bool-cases (leb (ch.local t / day) (d + 8))) [
      | inl k ↦ (
        u,
        Has-starts ch r t false d u
            (weekly-Has_behind (ch.local t / day) d w m (leb→le (ch.local t / day) (d + 8) k)
              recent)
            e,
        l,
        omega arith,
      )
      | inr k ↦ later k
    ]
      where
        today : ℕ
        today = ch.local t / day

        recent : d ≤ today + 1
        recent = elim (Bool-cases (leb d (today + 1))) [
          | inl k ↦ leb→le d (today + 1) k
          | inr k ↦
              let b = beyond ch zone r d t u h e (ground (arith, k)) in absurd (omega (arith, b, l))
        ]

        later :
            leb (ch.local t / day) (d + 8) ≡ false
            → (s : ℕ) × Has s (starts ch r t false) × (s ≤ t) × (u ≤ s)
        later k =
            let far : d + 9 ≤ today = ground (arith, k) in
            let n : ℕ = (today - 2 - d) / 7 in
            let c : ℕ = d + 7 * n in
            let p = start_on-some ch zone r c in
            (
              p.0,
              Has-starts ch r t false c p.0
                  (weekly-Has_behind today c w (same_week d c n w refl ∙ m) (omega (arith, far))
                    (omega (arith, far)))
                  p.1,
              before ch zone r c t p.0 h p.1 (omega (arith, far)),
              ordered ch zone r d c u p.0 h e p.1 (omega (arith, far)),
            )

-- For a schedule of one day or of some days of the week, whose start is a time of day, in a zone whose
-- clocks are never set back by twelve hours or more and skip at most three, and in which the days of the
-- week repeat: the first start after a time is the earliest of the starts after it on any date whatever,
-- the last start up to a time the latest of those up to it, and none is found only if there is none.
pub next_after-IsNext :
    (ch : Chrono) (r : Rule) (t : ℕ)
    → IsZone ch
    → r.start < 1440
    → r.kind ≢ monthly
    → IsNext ch r t (next_after ch r t) × IsLatest ch r t (latest_at_or_before ch r t)
next_after-IsNext ch r t zone h n = by_kind r.kind refl
  where
    by_kind :
        (k : ScheduleKind)
        → r.kind ≡ k
        → IsNext ch r t (next_after ch r t) × IsLatest ch r t (latest_at_or_before ch r t)
    by_kind once e = (
      covered-IsNext ch r t (once-CoversNext ch zone r e t),
      covered-IsLatest ch r t (once-CoversLatest ch zone r e t),
    )
    by_kind weekly e = (
      covered-IsNext ch r t (weekly-CoversNext ch zone r h e t),
      covered-IsLatest ch r t (weekly-CoversLatest ch zone r h e t),
    )
    by_kind monthly e = absurd (n e)
