-- ===== src/Scheduler/Examples.antt =====
-- Mondays at ten, in a zone without changes of the clocks.
use capture_room.Prelude.{
  ◌⊎◌, ℕ, ◌+◌, ◌*◌, ◌%◌, ◌/◌, ◌≡◌, ◌≢◌, refl, true, some, none, [], ◌∷◌, arith, ◌≤◌, inl,
}
use native.Mathlib.Nat.{add-mod_right}
use capture_room.Scheduler.{
  Chrono, Rule, weekly, monthly, day, minute, next_after, latest_at_or_before, starts, start_on,
  matches, parse,
}
use capture_room.Scheduler.Parse.{IsRule, parse-IsRule}
use capture_room.Scheduler.Window.{IsZone}
use capture_room.Scheduler.Nearest.{IsNext, IsLatest}
use capture_room.Scheduler.Cover.{next_after-IsNext}
use capture_room.Scheduler.Runs.{
  Target, nothing, schedule_run_exists, schedule_run_insert, schedule_run_update, start_run,
  recording,
}
use capture_room.Scheduler.Ticks.{next_look, sleep, Schedule, tick_schedule}
use capture_room.Scheduler.Wakes.{next_look-wakes}
use capture_room.Scheduler.Due.{Explains, tick_schedule-Explains, tick_schedule-once}

abbrev flat : Chrono
flat = record {
  weekday = λ d. d % 7;
  year = λ d. d / 365;
  month = λ d. 0;
  from_ymd = λ y m d. none;
  next_month = λ d. none;
  local = λ t. t;
  from_local = λ n. some n;
  parse_time = λ s. some 600;
  parse_date = λ s. none;
}

flat-IsZone : IsZone flat
flat-IsZone = record {
  means = λ n t e. cc;
  steady = λ s t l. omega arith;
  filled = λ n. (n, refl);
  week = λ d. add-mod_right d 7;
}

abbrev mondays : Rule
mondays = record {
  kind = weekly;
  date = none;
  weekdays = 1;
  month_day = none;
  month_week = none;
  start = 600;
  duration_s = some 3600;
}

-- A Wednesday.
abbrev t : ℕ
t = 30 * day

next_after-IsNext_example :
    IsNext flat mondays t (next_after flat mondays t)
    × IsLatest flat mondays t (latest_at_or_before flat mondays t)
next_after-IsNext_example = next_after-IsNext flat mondays t flat-IsZone (omega arith) not_monthly
  where
    not_monthly : weekly ≢ monthly
    not_monthly e = absurd (cc)

-- The following Monday at ten, and the one before.
found_example :
    (next_after flat mondays t ≡ some (35 * day + 600 * minute))
    × (latest_at_or_before flat mondays t ≡ some (28 * day + 600 * minute))
unfolding next_after latest_at_or_before starts start_on matches
found_example = (refl, refl)

parse-IsRule_example : IsRule weekly (parse flat weekly none 1 none none "10:00" (some 3600))
parse-IsRule_example = parse-IsRule flat weekly none 1 none none "10:00" (some 3600)

abbrev schedule : Schedule
schedule = record { id = "s"; enabled = true; rule = some mondays; updated_at = 0 }

abbrev show_time : ℕ
show_time = 35 * day + 600 * minute

abbrev camera : Target
camera = record {
  kind = recording;
  node_id = "n";
  id = "cam";
  session_id = some "r";
  error = none;
  stop_at_end = true;
}

tick_schedule-Explains_example :
    Explains flat show_time schedule [] (tick_schedule flat "u" (camera ∷ []) show_time schedule [])
tick_schedule-Explains_example = tick_schedule-Explains flat "u" (camera ∷ []) show_time schedule []

tick_schedule-once_example :
    let kept = (tick_schedule flat "u" (camera ∷ []) show_time schedule []).0 in
    tick_schedule flat "v" [] (show_time + minute) schedule kept ≡ (kept, nothing)
unfolding tick_schedule next_after latest_at_or_before starts start_on matches schedule_run_exists
    schedule_run_insert schedule_run_update start_run
tick_schedule-once_example =
    tick_schedule-once flat "u" "v" (camera ∷ []) [] show_time (show_time + minute) schedule
      schedule mondays [] show_time refl refl refl refl

on_monday : matches flat mondays 35 ≡ true
unfolding matches
on_monday = refl

at_ten : start_on flat mondays 35 ≡ some show_time
unfolding start_on
at_ten = refl

next_look-wakes_example :
    let next = next_look flat t (schedule ∷ []) [] in
    (next ≤ t + 60000000000)
    × (next + 2000000000 ≤ show_time)
    × (sleep (some next) (t + 5000) ≤ 60000000000)
    × ((t + 5000 + sleep (some next) (t + 5000) + 2000000000 ≤ show_time)
        ⊎ (sleep (some next) (t + 5000) ≡ 0))
next_look-wakes_example =
    next_look-wakes flat t (schedule ∷ []) [] schedule mondays show_time (t + 5000) flat-IsZone
      (inl refl) refl refl (omega arith) not_monthly (35, monday, on_time) (omega arith)
  where
    not_monthly : weekly ≢ monthly
    not_monthly e = absurd (cc)

    monday : matches flat mondays 35 ≡ true
    monday = on_monday

    on_time : start_on flat mondays 35 ≡ some show_time
    on_time = at_ten
