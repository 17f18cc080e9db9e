-- ===== src/Scheduler/Runs.antt =====
-- node/src/controller/scheduler.rs and node/src/db/mod.rs: the runs of schedules that the database keeps, and how one starts,
-- is skipped and ends. What the nodes answer, new identifiers and the time are arguments.
use capture_room.Prelude.{
  ℕ, ◌+◌, ◌*◌, Bool, true, false, not, ◌&&◌, ◌||◌, Option, none, some, List, [], ◌∷◌, map, String,
  str_eq, ◌==◌, ltb, if◌then◌else◌, retain, any, length,
}
use capture_room.Scheduler.{Rule}

abbrev pub second : ℕ
second = 1000000000

abbrev pub schedule_runs_kept : ℕ
schedule_runs_kept = 200

pub data RunStatus : Type 0 where
  running done partial failed skipped : RunStatus

pub data TargetKind : Type 0 where
  recording channel : TargetKind

pub record Target : Type 0 where
  pub kind : TargetKind
  pub node_id : String
  pub id : String
  pub session_id : Option String
  pub error : Option String
  pub stop_at_end : Bool

pub record Run : Type 0 where
  pub id : String
  pub schedule_id : String
  pub planned_start : ℕ
  pub planned_end : Option ℕ
  pub started_at : Option ℕ
  pub stopped_at : Option ℕ
  pub status : RunStatus
  pub targets : List Target

abbrev pub is_running : RunStatus → Bool
is_running running = true
is_running _ = false

abbrev pub is_of : String → ℕ → Run → Bool
is_of schedule_id start q = str_eq q.schedule_id schedule_id && q.planned_start == start

unfoldable pub schedule_run_exists : String → ℕ → List Run → Bool
schedule_run_exists schedule_id start runs = any (is_of schedule_id start) runs

abbrev pub newer : Run → List Run → ℕ
newer r runs = length (
    retain (λ (q : Run). str_eq q.schedule_id r.schedule_id && ltb r.planned_start q.planned_start)
      runs)

abbrev pub is_kept : String → List Run → Run → Bool
is_kept schedule_id runs q =
    not (str_eq q.schedule_id schedule_id)
    || is_running q.status
    || ltb (newer q runs) schedule_runs_kept

-- One run an occurrence; of a schedule's runs that are over the newest are kept.
unfoldable pub schedule_run_insert : Run → List Run → List Run × Bool
schedule_run_insert r runs =
    if schedule_run_exists r.schedule_id r.planned_start runs
    then (runs, false)
    else (retain (is_kept r.schedule_id (r ∷ runs)) (r ∷ runs), true)

abbrev pub updated : Run → Run → Run
updated r q =
    if str_eq q.id r.id
    then (record q {
      started_at = r.started_at;
      stopped_at = r.stopped_at;
      status = r.status;
      targets = r.targets;
    })
    else q

unfoldable pub schedule_run_update : Run → List Run → List Run
schedule_run_update r runs = map (updated r) runs

abbrev pub end_of : Option ℕ → ℕ → Option ℕ
end_of none start = none
end_of (some seconds) start = some (start + seconds * second)

abbrev pub new_run : String → String → Rule → ℕ → RunStatus → Run
new_run uuid schedule_id rule start status = record {
  id = uuid;
  schedule_id = schedule_id;
  planned_start = start;
  planned_end = end_of rule.duration_s start;
  started_at = none;
  stopped_at = none;
  status = status;
  targets = [];
}

abbrev pub has_failed : Target → Bool
has_failed t = is_there t.error
  where
    is_there : Option String → Bool
    is_there none = false
    is_there (some e) = true

abbrev pub is_planned : Option ℕ → Bool
is_planned none = false
is_planned (some t) = true

-- Once its targets have answered.
abbrev pub start_status : List Target → Option ℕ → RunStatus
start_status targets planned_end =
    let fails = length (retain has_failed targets) in
    if fails == length targets
    then failed
    else if is_planned planned_end
    then running
    else if ltb 0 fails
    then partial
    else done

pub data Event : Type 0 where
  nothing : Event
  started skipped_run : ℕ → Event

abbrev pub start_with : Run → List Target → ℕ → List Run × Bool → List Run × Event
start_with r targets now (runs, false) = (runs, nothing)
start_with r targets now (runs, true) = (
  schedule_run_update
      (record r {
        started_at = some now;
        targets = targets;
        status = start_status targets r.planned_end;
      })
      runs,
  started r.planned_start,
)

unfoldable pub start_run :
    String → List Target → ℕ → String → Rule → ℕ → List Run → List Run × Event
start_run uuid targets now schedule_id rule start runs =
    let r = new_run uuid schedule_id rule start running in
    start_with r targets now (schedule_run_insert r runs)

abbrev pub skip_with : ℕ → List Run × Bool → List Run × Event
skip_with start (runs, false) = (runs, nothing)
skip_with start (runs, true) = (runs, skipped_run start)

unfoldable pub skip_run : String → String → Rule → ℕ → List Run → List Run × Event
skip_run uuid schedule_id rule start runs =
    skip_with start (schedule_run_insert (new_run uuid schedule_id rule start skipped) runs)

abbrev pub stop_status : List Target → RunStatus
stop_status targets = if any has_failed targets then partial else done

-- A run's end, once its targets were asked to stop.
unfoldable pub stop_run : ℕ → Run → List Run → List Run
stop_run now r runs =
    schedule_run_update (record r { stopped_at = some now; status = stop_status r.targets }) runs

abbrev pub has_session : TargetKind → Option String → Bool
has_session recording none = false
has_session recording (some id) = true
has_session channel session = true

-- The targets that a run's end asks to stop.
unfoldable pub stops_of : Run → List Target
stops_of r =
    retain (λ (t : Target). not (has_failed t) && t.stop_at_end && has_session t.kind t.session_id)
      r.targets
