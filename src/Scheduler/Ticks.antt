-- ===== src/Scheduler/Ticks.antt =====
-- node/src/controller/scheduler.rs: what the scheduler starts, skips and stops when it looks, and when it
-- looks again.
use capture_room.Prelude.{
  ℕ, ◌+◌, ◌-◌, min, ◌*◌, Bool, true, false, not, ◌&&◌, Option, none, some, List, [], ◌∷◌, map,
  String, str_eq, ltb, leb, if◌then◌else◌, retain,
}
use capture_room.Scheduler.{Chrono, Rule, latest_at_or_before, next_after}
use capture_room.Scheduler.Runs.{
  Event, Run, Target, is_running, nothing, schedule_run_exists, second, skip_run, start_run,
  stop_run,
}

-- Two seconds before a start, two minutes of grace without an end.
abbrev pub lead : ℕ
lead = 2000000000

abbrev pub no_end_grace : ℕ
no_end_grace = 120000000000

-- A stored schedule: its rule, if it is one, and when it was saved last.
pub record Schedule : Type 0 where
  pub id : String
  pub enabled : Bool
  pub rule : Option Rule
  pub updated_at : ℕ

abbrev pub or_grace : Option ℕ → ℕ
or_grace none = no_end_grace
or_grace (some seconds) = seconds * second

abbrev pub window_end : Rule → ℕ → ℕ
window_end rule start = start + or_grace rule.duration_s

abbrev pub due_at :
    Option ℕ → String → List Target → ℕ → Schedule → Rule → List Run → List Run × Event
due_at none uuid targets now s rule runs = (runs, nothing)
due_at (some start) uuid targets now s rule runs =
    if ltb s.updated_at (window_end rule start) && not (schedule_run_exists s.id start runs)
    then (if ltb now (window_end rule start)
        then start_run uuid targets now s.id rule start runs
        else skip_run uuid s.id rule start runs)
    else (runs, nothing)

abbrev pub due_by :
    Chrono → Option Rule → String → List Target → ℕ → Schedule → List Run → List Run × Event
due_by ch none uuid targets now s runs = (runs, nothing)
due_by ch (some rule) uuid targets now s runs =
    due_at (latest_at_or_before ch rule (now + lead)) uuid targets now s rule runs

-- What a look at one schedule starts or skips.
unfoldable pub tick_schedule :
    Chrono → String → List Target → ℕ → Schedule → List Run → List Run × Event
tick_schedule ch uuid targets now s runs =
    if s.enabled then due_by ch s.rule uuid targets now s runs else (runs, nothing)

abbrev pub is_due : Option ℕ → ℕ → Bool
is_due none now = true
is_due (some t) now = leb t now

abbrev pub stop_each : ℕ → List Run → List Run → List Run
stop_each now [] runs = runs
stop_each now (r ∷ rs) runs =
    let stopped = stop_each now rs (stop_run now r runs) in
    let kept = stop_each now rs runs in if is_due r.planned_end now then stopped else kept

-- The runs whose end has come are stopped.
unfoldable pub tick_stops : ℕ → List Run → List Run
tick_stops now runs = stop_each now (retain (λ (r : Run). is_running r.status) runs) runs

abbrev pub idle : ℕ
idle = 60000000000

abbrev pub sooner : Option ℕ → ℕ → ℕ
sooner none next = next
sooner (some t) next = min next t

abbrev pub end_ahead : ℕ → Option ℕ → Option ℕ
end_ahead now none = none
end_ahead now (some t) = if leb t now then none else some t

-- The ends of the runs that go on.
abbrev pub next_end : ℕ → List Run → ℕ → ℕ
next_end now [] next = next
next_end now (r ∷ runs) next = next_end now runs (sooner (end_ahead now r.planned_end) next)

abbrev pub lead_before : Option ℕ → Option ℕ
lead_before none = none
lead_before (some start) = some (start - lead)

abbrev pub wake_of : Chrono → Option Rule → ℕ → Option ℕ
wake_of ch none now = none
wake_of ch (some rule) now = lead_before (next_after ch rule (now + lead))

abbrev pub wake_for : Chrono → ℕ → Schedule → Option ℕ
wake_for ch now s = if s.enabled then wake_of ch s.rule now else none

abbrev pub next_start : Chrono → ℕ → List Schedule → ℕ → ℕ
next_start ch now [] next = next
next_start ch now (s ∷ schedules) next =
    next_start ch now schedules (sooner (wake_for ch now s) next)

-- When to look again.
unfoldable pub next_look : Chrono → ℕ → List Schedule → List Run → ℕ
next_look ch now schedules runs =
    next_start ch now schedules
      (next_end now (retain (λ (r : Run). is_running r.status) runs) (now + idle))

-- A schedule with the identifier and the answers that it gets if it is started.
pub record Answered : Type 0 where
  pub schedule : Schedule
  pub uuid : String
  pub targets : List Target

abbrev pub tick_each : Chrono → ℕ → List Answered → List Run → List Run × List Event
tick_each ch now [] runs = (runs, [])
tick_each ch now (a ∷ rest) runs =
    let r = tick_schedule ch a.uuid a.targets now a.schedule runs in
    let more = tick_each ch now rest r.0 in (more.0, r.1 ∷ more.1)

-- A look: what has ended is stopped, then what is due is started or skipped; and when to look again.
unfoldable pub tick : Chrono → ℕ → List Answered → List Run → List Run × List Event × ℕ
tick ch now answered runs =
    let r = tick_each ch now answered (tick_stops now runs) in
    (r.0, r.1, next_look ch now (map (λ (a : Answered). a.schedule) answered) runs)

-- When to look again after a look that ended at `after`: a failed one (`none`) says nothing.
abbrev pub planned : Option ℕ → ℕ → ℕ
planned none after = after + idle
planned (some next) after = next

-- How long the loop sleeps, unless it is woken.
unfoldable pub sleep : Option ℕ → ℕ → ℕ
sleep answer after = min (planned answer after - after) idle

abbrev pub run_of : String → List Run → Option Run
run_of schedule_id [] = none
run_of schedule_id (r ∷ runs) =
    let rest = run_of schedule_id runs in
    if is_running r.status && str_eq r.schedule_id schedule_id then some r else rest

abbrev pub stop_found : Option Run → ℕ → List Run → List Run × Bool
stop_found none now runs = (runs, false)
stop_found (some r) now runs = (stop_run now r runs, true)

-- A schedule's running occurrence is ended now, if there is one.
unfoldable pub stop_now : ℕ → String → List Run → List Run × Bool
stop_now now schedule_id runs = stop_found (run_of schedule_id runs) now runs
