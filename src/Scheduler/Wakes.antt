-- ===== src/Scheduler/Wakes.antt =====
-- The scheduler looks again in time.
use capture_room.Prelude.{
  ℕ, ◌+◌, ◌-◌, ◌≤◌, ◌<◌, ◌≡◌, ◌≢◌, ◌⊎◌, min, refl, subst, inl, inr, true, Option, none, some, List,
  [], ◌∷◌, arith, Has, retain,
}
use capture_room.Scheduler.{Chrono, Rule, monthly, next_after}
use capture_room.Scheduler.Window.{IsZone}
use capture_room.Scheduler.Nearest.{IsStart, IsNext}
use capture_room.Scheduler.Cover.{next_after-IsNext}
use capture_room.Scheduler.Runs.{Run, is_running}
use capture_room.Scheduler.Ticks.{
  lead, idle, Schedule, sooner, wake_for, next_start, next_end, next_look, sleep, end_ahead,
}

sooner-le : (o : Option ℕ) (next : ℕ) → sooner o next ≤ next
sooner-le none next = omega arith
sooner-le (some t) next = omega arith

next_start-le :
    (ch : Chrono) (now : ℕ) (ss : List Schedule) (next : ℕ) → next_start ch now ss next ≤ next
next_start-le ch now [] next = omega arith
next_start-le ch now (s ∷ ss) next = omega (
  arith,
  next_start-le ch now ss (sooner (wake_for ch now s) next),
  sooner-le (wake_for ch now s) next,
)

next_end-le : (now : ℕ) (runs : List Run) (next : ℕ) → next_end now runs next ≤ next
next_end-le now [] next = omega arith
next_end-le now (r ∷ runs) next = omega (
  arith,
  next_end-le now runs (sooner (end_ahead now r.planned_end) next),
  sooner-le (end_ahead now r.planned_end) next,
)

next_start-sooner :
    (ch : Chrono) (now : ℕ) (s : Schedule) (ss : List Schedule) (next t : ℕ)
    → Has s ss
    → wake_for ch now s ≡ some t
    → next_start ch now ss next ≤ t
next_start-sooner ch now s [] next t h e = absurd h
next_start-sooner ch now s (x ∷ ss) next t (inr h) e =
    next_start-sooner ch now s ss (sooner (wake_for ch now x) next) t h e
next_start-sooner ch now s (x ∷ ss) next t (inl k) e =
    least (wake_for ch now x) (subst (λ x. wake_for ch now x ≡ some t) k e)
      (next_start-le ch now ss (sooner (wake_for ch now x) next))
  where
    least :
        (o : Option ℕ)
        → o ≡ some t
        → next_start ch now ss (sooner (wake_for ch now x) next) ≤ sooner o next
        → next_start ch now ss (sooner (wake_for ch now x) next) ≤ t
    least o f l = omega (
      arith,
      subst (λ o. next_start ch now ss (sooner (wake_for ch now x) next) ≤ sooner o next) f l,
    )

-- For an enabled schedule of one day or of some days of the week, whose start is a time of day, in a zone whose
-- clocks are never set back by twelve hours or more and skip at most three, and in which the days of the
-- week repeat, and a start of it that lies more than two seconds ahead of a look that does not fail: the next look is planned within a minute, and at least two seconds
-- before the start. However long the look took, the loop sleeps no more than a minute, and either wakes two seconds before the start or
-- looks again at once.
pub next_look-wakes :
    (ch : Chrono) (now : ℕ) (ss : List Schedule) (runs : List Run) (s : Schedule) (r : Rule)
    (start after : ℕ)
    → IsZone ch
    → Has s ss
    → s.enabled ≡ true
    → s.rule ≡ some r
    → r.start < 1440
    → r.kind ≢ monthly
    → IsStart ch r start
    → now + lead < start
    → let next = next_look ch now ss runs in
      (next ≤ now + idle)
      × (next + lead ≤ start)
      × (sleep (some next) after ≤ idle)
      × ((after + sleep (some next) after + lead ≤ start) ⊎ (sleep (some next) after ≡ 0))
unfolding next_look sleep
next_look-wakes ch now ss runs s r start after zone h en k day kind i l = (
  omega (arith, next_start-le ch now ss next, next_end-le now going (now + idle)),
  soon,
  omega arith,
  rested (next_start ch now ss next) soon (omega arith),
)
  where
    going : List Run
    going = retain (λ (r : Run). is_running r.status) runs

    next : ℕ
    next = next_end now going (now + idle)

    by_next :
        (o : Option ℕ)
        → IsNext ch r (now + lead) o
        → next_after ch r (now + lead) ≡ o
        → next_start ch now ss next + lead ≤ start
    by_next none n e = absurd (omega (arith, l, n start i))
    by_next (some u) n e =
        let w : wake_for ch now s ≡ some (u - lead) = wakes in
        omega (arith, next_start-sooner ch now s ss next (u - lead) h w, n.1, n.2 start i l)
      where
        wakes : wake_for ch now s ≡ some (u - lead)
        wakes = rw (en, k, e) refl

    soon : next_start ch now ss next + lead ≤ start
    soon =
        by_next (next_after ch r (now + lead)) (next_after-IsNext ch r (now + lead) zone day kind).0
          refl

    rested :
        (look : ℕ)
        → look + lead ≤ start
        → (look ≤ after) ⊎ (after ≤ look)
        → (after + min (look - after) idle + lead ≤ start) ⊎ (min (look - after) idle ≡ 0)
    rested look h (inl k) = inr (omega arith)
    rested look h (inr k) = inl (omega arith)
