-- ===== src/Scheduler/Due.antt =====
-- An occurrence starts in its window, and once.
use capture_room.Prelude.{
  ℕ, ◌+◌, ◌≤◌, ◌<◌, ◌≡◌, refl, sym, ◌∙◌, subst, inl, inr, Bool, true, false, not, ◌&&◌, Option,
  none, some, List, [], ◌∷◌, String, str_eq, ==_iff, str_refl, ltb, ltb→lt, if◌then◌else◌, retain,
  arith, Bool-cases, and_true,
}
use capture_room.Scheduler.{Chrono, Rule, latest_at_or_before}
use capture_room.Scheduler.Nearest.{IsStart, latest_at_or_before-IsStart}
use capture_room.Scheduler.Runs.{
  Target, Run, running, is_of, is_kept, is_running, schedule_run_exists, schedule_run_insert,
  schedule_run_update, updated, new_run, Event, nothing, started, skipped_run, start_with,
  start_run, skip_run,
}
use capture_room.Scheduler.Ticks.{lead, Schedule, window_end, due_at, due_by, tick_schedule}

is_of-updated :
    (id : String) (start : ℕ) (r q : Run) → is_of id start (updated r q) ≡ is_of id start q
is_of-updated id start r q = elim (Bool-cases (str_eq q.id r.id)) [
  | inl e ↦ rw e refl
  | inr e ↦ rw e refl
]

update-exists :
    (id : String) (start : ℕ) (r : Run) (runs : List Run)
    → schedule_run_exists id start (schedule_run_update r runs) ≡ schedule_run_exists id start runs
unfolding schedule_run_exists schedule_run_update
update-exists id start r [] = refl
update-exists id start r (q ∷ runs) =
    rw (is_of-updated id start r q, update-exists id start r runs) refl

kept-exists :
    (r : Run) (p : Run → Bool) (runs : List Run)
    → p r ≡ true
    → schedule_run_exists r.schedule_id r.planned_start (retain p (r ∷ runs)) ≡ true
unfolding schedule_run_exists
kept-exists r p runs k =
    rw (k, str_refl r.schedule_id, (==_iff r.planned_start r.planned_start).1 refl) refl

-- A run that is running is kept when it is recorded.
insert-exists :
    (r : Run) (runs : List Run)
    → is_running r.status ≡ true
    → schedule_run_exists r.schedule_id r.planned_start runs ≡ false
    → (schedule_run_exists r.schedule_id r.planned_start (schedule_run_insert r runs).0 ≡ true)
      × ((schedule_run_insert r runs).1 ≡ true)
unfolding schedule_run_insert
insert-exists r runs k e = rw e (
  kept-exists r (is_kept r.schedule_id (r ∷ runs)) runs (rw (k, str_refl r.schedule_id) refl),
  refl,
)

-- Starting an occurrence that has no run records one.
start_run-starts :
    (uuid : String) (targets : List Target) (now : ℕ) (id : String) (rule : Rule) (start : ℕ)
    (runs : List Run)
    → schedule_run_exists id start runs ≡ false
    → let r = start_run uuid targets now id rule start runs in
      (r.1 ≡ started start) × (schedule_run_exists id start r.0 ≡ true)
unfolding start_run
start_run-starts uuid targets now id rule start runs e =
    by_insert (schedule_run_insert r runs) k.1 k.0
  where
    r : Run
    r = new_run uuid id rule start running

    k :
        (schedule_run_exists id start (schedule_run_insert r runs).0 ≡ true)
        × ((schedule_run_insert r runs).1 ≡ true)
    k = insert-exists r runs refl e

    by_insert :
        (p : List Run × Bool)
        → p.1 ≡ true
        → schedule_run_exists id start p.0 ≡ true
        → ((start_with r targets now p).1 ≡ started start)
          × (schedule_run_exists id start (start_with r targets now p).0 ≡ true)
    by_insert (rs, true) e f = (refl, update-exists id start _ rs ∙ f)
    by_insert (rs, false) e f = absurd (cc)

skip_run-skips :
    (uuid id : String) (rule : Rule) (start : ℕ) (runs : List Run)
    → schedule_run_exists id start runs ≡ false
    → (skip_run uuid id rule start runs).1 ≡ skipped_run start
unfolding skip_run schedule_run_insert
skip_run-skips uuid id rule start runs e = rw e refl

-- An occurrence that the schedule comes to by then, with its window's end after the schedule was saved and no run
-- yet.
pub record IsDue (ch : Chrono) (now : ℕ) (s : Schedule) (runs : List Run) (start : ℕ) : Type 0 where
  pub rule : Rule
  pub is_rule : s.rule ≡ some rule
  pub enabled : s.enabled ≡ true
  pub is_start : IsStart ch rule start
  pub come : start ≤ now + lead
  pub saved : s.updated_at < window_end rule start
  pub unrun : schedule_run_exists s.id start runs ≡ false

-- What a look says of the runs before and after it.
abbrev pub Explains : Chrono → ℕ → Schedule → List Run → List Run × Event → Type 0
Explains ch now s runs (rs, nothing) = rs ≡ runs
Explains ch now s runs (rs, started start) =
    (d : IsDue ch now s runs start) × (now < window_end d.rule start)
    × (schedule_run_exists s.id start rs ≡ true)
Explains ch now s runs (rs, skipped_run start) =
    (d : IsDue ch now s runs start) × (window_end d.rule start ≤ now)

-- A look at a schedule that starts nothing and skips nothing leaves the runs as they are; it starts and
-- skips only the enabled schedule's starts that have come, up to two seconds early, of which no run is
-- recorded and whose window ended after the schedule was saved; it starts one only before the window
-- ends, with a run recorded then, and skips one only after.
pub tick_schedule-Explains :
    (ch : Chrono) (uuid : String) (targets : List Target) (now : ℕ) (s : Schedule) (runs : List Run)
    → Explains ch now s runs (tick_schedule ch uuid targets now s runs)
unfolding tick_schedule
tick_schedule-Explains ch uuid targets now s runs = by_enabled s.enabled refl
  where
    due :
        (start : ℕ) (rule : Rule)
        → s.enabled ≡ true
        → s.rule ≡ some rule
        → latest_at_or_before ch rule (now + lead) ≡ some start
        → s.updated_at < window_end rule start
        → schedule_run_exists s.id start runs ≡ false
        → IsDue ch now s runs start
    due start rule en k e l u =
        let i = latest_at_or_before-IsStart ch rule (now + lead) start e in
        record {
          rule = rule;
          is_rule = k;
          enabled = en;
          is_start = i.0;
          come = i.1;
          saved = l;
          unrun = u;
        }

    by_due :
        s.enabled ≡ true
        → (rule : Rule) → s.rule ≡ some rule
        → (o : Option ℕ) → latest_at_or_before ch rule (now + lead) ≡ o
        → Explains ch now s runs (due_at o uuid targets now s rule runs)
    by_due en rule k none e = refl
    by_due en rule k (some start) e =
        elim (Bool-cases
          (ltb s.updated_at (window_end rule start) && not (schedule_run_exists s.id start runs))) [
            | inl l ↦ rw l (elim (Bool-cases (ltb now (window_end rule start))) [
              | inl n ↦ rw n (
                  let p = start_run-starts uuid targets now s.id rule start runs (unrun l) in
                  subst
                    (λ v.
                      Explains ch now s runs
                        ((start_run uuid targets now s.id rule start runs).0, v))
                    (sym p.0)
                    (
                      due start rule en k e (in_window l) (unrun l),
                      ltb→lt now (window_end rule start) n,
                      p.1,
                    ))
              | inr n ↦ rw n (
                  subst (λ v. Explains ch now s runs ((skip_run uuid s.id rule start runs).0, v))
                    (sym (skip_run-skips uuid s.id rule start runs (unrun l)))
                    (due start rule en k e (in_window l) (unrun l), ground (arith, n)))
            ])
            | inr l ↦ rw l refl
          ]
      where
        in_window :
            (ltb s.updated_at (window_end rule start) && not (schedule_run_exists s.id start runs))
              ≡ true
            → s.updated_at < window_end rule start
        in_window l =
            ltb→lt s.updated_at (window_end rule start)
              (and_true (ltb s.updated_at (window_end rule start))
                (not (schedule_run_exists s.id start runs)) l).0

        unrun :
            (ltb s.updated_at (window_end rule start) && not (schedule_run_exists s.id start runs))
              ≡ true
            → schedule_run_exists s.id start runs ≡ false
        unrun l =
            negated (schedule_run_exists s.id start runs)
              (and_true (ltb s.updated_at (window_end rule start))
                (not (schedule_run_exists s.id start runs)) l).1
          where
            negated : (b : Bool) → not b ≡ true → b ≡ false
            negated true e = absurd (cc)
            negated false e = refl

    by_enabled :
        (b : Bool)
        → s.enabled ≡ b
        → Explains ch now s runs
            (if b then due_by ch s.rule uuid targets now s runs else (runs, nothing))
    by_enabled false e = refl
    by_enabled true e = by_rule s.rule refl
      where
        by_rule :
            (o : Option Rule)
            → s.rule ≡ o
            → Explains ch now s runs (due_by ch o uuid targets now s runs)
        by_rule none k = refl
        by_rule (some rule) k = by_due e rule k (latest_at_or_before ch rule (now + lead)) refl

looks-nothing :
    (ch : Chrono) (uuid : String) (targets : List Target) (now : ℕ) (s : Schedule) (rule : Rule)
    (runs : List Run) (start : ℕ)
    → s.rule ≡ some rule
    → latest_at_or_before ch rule (now + lead) ≡ some start
    → schedule_run_exists s.id start runs ≡ true
    → tick_schedule ch uuid targets now s runs ≡ (runs, nothing)
unfolding tick_schedule
looks-nothing ch uuid targets now s rule runs start k l x = by_enabled s.enabled
  where
    none_due : due_at (some start) uuid targets now s rule runs ≡ (runs, nothing)
    none_due = elim (Bool-cases (ltb s.updated_at (window_end rule start))) [
      | inl e ↦ rw (e, x) refl
      | inr e ↦ rw e refl
    ]

    by_enabled :
        (b : Bool)
        → (if b then due_by ch s.rule uuid targets now s runs else (runs, nothing))
          ≡ (runs, nothing)
    by_enabled false = refl
    by_enabled true =
        subst (λ o. due_by ch o uuid targets now s runs ≡ (runs, nothing)) (sym k)
          (subst (λ o. due_at o uuid targets now s rule runs ≡ (runs, nothing)) (sym l) none_due)

-- Once a look at a schedule has started an occurrence, a look at the runs it left, at any time and whatever the
-- schedule is by then, starts and skips nothing while that is still the latest occurrence.
pub tick_schedule-once :
    (ch : Chrono) (uuid later_uuid : String) (targets later_targets : List Target) (now later : ℕ)
    (s t : Schedule) (rule : Rule) (runs : List Run) (start : ℕ)
    → (tick_schedule ch uuid targets now s runs).1 ≡ started start
    → t.id ≡ s.id
    → t.rule ≡ some rule
    → latest_at_or_before ch rule (later + lead) ≡ some start
    → let kept = (tick_schedule ch uuid targets now s runs).0 in
      tick_schedule ch later_uuid later_targets later t kept ≡ (kept, nothing)
tick_schedule-once ch uuid later_uuid targets later_targets now later s t rule runs start e i k l =
    by_row
      (subst (λ v. Explains ch now s runs (kept, v)) e
        (tick_schedule-Explains ch uuid targets now s runs)).2
  where
    kept : List Run
    kept = (tick_schedule ch uuid targets now s runs).0

    by_row :
        schedule_run_exists s.id start kept ≡ true
        → tick_schedule ch later_uuid later_targets later t kept ≡ (kept, nothing)
    by_row x = looks-nothing ch later_uuid later_targets later t rule kept start k l (rw i x)
