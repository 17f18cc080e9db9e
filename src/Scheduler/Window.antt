-- ===== src/Scheduler/Window.antt =====
-- What the theorems take of the time zone and the calendar, and which days the search for a start has to look
-- at.
use capture_room.Prelude.{
  ℕ, zero, suc, ◌+◌, ◌*◌, ◌/◌, ◌≤◌, ◌<◌, ◌≡◌, refl, ◌∙◌, inl, inr, Option, none, some, ltb, leb,
  ltb→lt, leb→le, arith, Bool-cases,
}
use capture_room.Scheduler.{Chrono, minute, day, Rule, start_on, first_minute, or_later}

-- A local time's meaning is at that local time; the clocks are never set back by twelve hours or more; when they are
-- set forward, one of the 181 minutes from the time skipped on exists; and the days of the week repeat.
pub record IsZone (ch : Chrono) : Type 0 where
  pub means : (n t : ℕ) → ch.from_local n ≡ some t → ch.local t ≡ n
  pub steady : (s t : ℕ) → s ≤ t → ch.local s < ch.local t + 43200000000000
  pub filled : (n : ℕ) → (t : ℕ) × (first_minute ch 181 n ≡ some t)
  pub week : (d : ℕ) → ch.weekday (d + 7) ≡ ch.weekday d

module _ (ch : Chrono) (zone : IsZone ch) where
  first_minute-near :
      (k n t : ℕ) → first_minute ch k n ≡ some t → (n ≤ ch.local t) × (ch.local t < n + k * minute)
  first_minute-near zero n t e = absurd (cc)
  first_minute-near (suc k) n t e =
      by_time (λ f. first_minute-near k (n + minute) t f) (ch.from_local n) refl e
    where
      by_time :
          (first_minute ch k (n + minute) ≡ some t
            → (n + minute ≤ ch.local t) × (ch.local t < n + minute + k * minute))
          → (o : Option ℕ) → ch.from_local n ≡ o
          → or_later o (first_minute ch k (n + minute)) ≡ some t
          → (n ≤ ch.local t) × (ch.local t < n + suc k * minute)
      by_time rest none f e = let r = rest e in (omega (arith, r.0), omega (arith, r.1))
      by_time rest (some u) f e =
          let m : ch.local t ≡ n = zone.means n t (f ∙ e) in (omega (arith, m), omega (arith, m))

  -- A start's local time is on its date, or in the first hours of the following one.
  pub start_on-near :
      (r : Rule) (d t : ℕ)
      → r.start < 1440
      → start_on ch r d ≡ some t
      → (d * day ≤ ch.local t) × (ch.local t < (d + 1) * day + 10860000000000)
  unfolding start_on
  start_on-near r d t h e =
      let n = first_minute-near 181 (d * day + r.start * minute) t e in
      (omega (arith, n.0), omega (arith, n.1, h))

  pub start_on-some : (r : Rule) (d : ℕ) → (t : ℕ) × (start_on ch r d ≡ some t)
  unfolding start_on
  start_on-some r d = zone.filled (d * day + r.start * minute)

  pub before :
      (r : Rule) (d t s : ℕ)
      → r.start < 1440
      → start_on ch r d ≡ some s
      → d + 2 ≤ ch.local t / day
      → s ≤ t
  before r d t s h e l = elim (Bool-cases (leb s t)) [
    | inl k ↦ leb→le s t k
    | inr k ↦
        let n = start_on-near r d s h e in
        let b = zone.steady t s (ground (arith, k)) in absurd (omega (arith, n.1, b, l))
  ]

  pub beyond :
      (r : Rule) (d t s : ℕ)
      → r.start < 1440
      → start_on ch r d ≡ some s
      → ch.local t / day + 2 ≤ d
      → t < s
  beyond r d t s h e l = elim (Bool-cases (ltb t s)) [
    | inl k ↦ ltb→lt t s k
    | inr k ↦
        let n = start_on-near r d s h e in
        let b = zone.steady s t (ground (arith, k)) in absurd (omega (arith, n.0, b, l))
  ]

  pub ordered :
      (r : Rule) (c d s u : ℕ)
      → r.start < 1440
      → start_on ch r c ≡ some s
      → start_on ch r d ≡ some u
      → c + 2 ≤ d
      → s ≤ u
  ordered r c d s u h e f l = elim (Bool-cases (leb s u)) [
    | inl k ↦ leb→le s u k
    | inr k ↦
        let n = start_on-near r c s h e in
        let m = start_on-near r d u h f in
        let b = zone.steady u s (ground (arith, k)) in absurd (omega (arith, n.1, m.0, b, l))
  ]
