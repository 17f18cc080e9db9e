-- ===== src/Sources/Ends.antt =====
-- node/src/sources/manager.rs and session.rs: how a recording ends. A stop takes the session out of the
-- manager, its legs finish off the lock, and what came of it is published.
use capture_room.Prelude.{
  ◌+◌, Bool, Option, none, some, List, [], ◌∷◌, map, String, leb, if◌then◌else◌, retain, length,
  get, put, delete,
}
use Prim.Native.String.{◌++◌ as append}
use capture_room.Sources.{
  stopped, error, RecordingSession, RecordingLeg, ActiveSession, MonitorPipeline, SourceManager,
  live, records,
}

pub record StopJob : Type 0 where
  pub legs : List RecordingLeg
  pub dto : RecordingSession

abbrev pub take_entry :
    Option ActiveSession → String → SourceManager → SourceManager × Option StopJob
take_entry none id m = (m, none)
take_entry (some s) id m = (
  record m { sessions = delete id m.sessions; stopping = put id none m.stopping },
  some (record { legs = s.legs; dto = live s }),
)

unfoldable pub take_session : String → SourceManager → SourceManager × Option StopJob
take_session id m = take_entry (get id m.sessions) id m

pub data StopOutcome : Type 0 where
  start : StopJob → StopOutcome
  join : Option RecordingSession → StopOutcome
  not_found : StopOutcome

abbrev pub join_or : Option (Option RecordingSession) → StopOutcome
join_or none = not_found
join_or (some result) = join result

abbrev pub stop_with :
    Option StopJob → Option (Option RecordingSession) → SourceManager → SourceManager × StopOutcome
stop_with (some job) result m = (m, start job)
stop_with none result m = (m, join_or result)

unfoldable pub begin_stop_recording : String → SourceManager → SourceManager × StopOutcome
begin_stop_recording id m = let r = take_session id m in stop_with r.1 (get id m.stopping) r.0

unfoldable pub finish_stop : String → SourceManager → SourceManager
finish_stop id m = record m { stopping = delete id m.stopping }

pub record LegFailure : Type 0 where
  pub session_id : String
  pub path : String
  pub error : String

pub record NotedFailure : Type 0 where
  pub source_id : String
  pub error : String
  pub all_failed : Bool

abbrev pub joined : Option String → String → String
joined none msg = msg
joined (some prev) msg = append prev (append "; " msg)

abbrev pub failure_text : LegFailure → String
failure_text f = append f.path (append ": " f.error)

abbrev pub fail_leg : LegFailure → ActiveSession → ActiveSession
fail_leg f s = record s {
  failed_legs = s.failed_legs + 1;
  dto = record s.dto { error_message = some (joined s.dto.error_message (failure_text f)) };
}

abbrev pub note_entry :
    Option ActiveSession → LegFailure → SourceManager → SourceManager × Option NotedFailure
note_entry none f m = (m, none)
note_entry (some s) f m = (
  record m { sessions = put f.session_id (fail_leg f s) m.sessions },
  some (record {
    source_id = s.dto.source_id;
    error = joined s.dto.error_message (failure_text f);
    all_failed = leb (length s.legs) (s.failed_legs + 1);
  }),
)

unfoldable pub note_leg_failure : LegFailure → SourceManager → SourceManager × Option NotedFailure
note_leg_failure f m = note_entry (get f.session_id m.sessions) f m

abbrev pub stop_failed :
    Option NotedFailure → String → SourceManager → SourceManager × Option StopOutcome
stop_failed none id m = (m, none)
stop_failed (some n) id m =
    let r = begin_stop_recording id m in if n.all_failed then (r.0, some r.1) else (m, none)

-- A failure as it is reported: once every leg has failed the session stops.
unfoldable pub report_leg_failure : LegFailure → SourceManager → SourceManager × Option StopOutcome
report_leg_failure f m = let r = note_leg_failure f m in stop_failed r.1 f.session_id r.0

abbrev pub join_errors : List String → Option String
join_errors [] = none
join_errors (e ∷ []) = some e
join_errors (e ∷ rest) = more (join_errors rest)
  where
    more : Option String → Option String
    more none = some e
    more (some text) = some (append e (append "; " text))

-- A failed source is why its legs fail.
abbrev pub cause : Option String → List String → Option String
cause none leg_errors = join_errors leg_errors
cause (some e) leg_errors = some (append "source failed: " e)

abbrev pub ended : Option String → RecordingSession → RecordingSession
ended none dto = record dto { status = stopped }
ended (some e) dto = record dto { status = error; error_message = some e }

-- The published outcome, once the legs have stopped with these errors.
unfoldable pub run_stop : Option String → List String → StopJob → RecordingSession
run_stop source_error leg_errors job = ended (cause source_error leg_errors) job.dto

-- A stop's outcome is published for those that wait on it.
abbrev pub publish_entry :
    Option (Option RecordingSession) → RecordingSession → SourceManager → SourceManager
publish_entry none dto m = m
publish_entry (some r) dto m = record m { stopping = put dto.id (some dto) m.stopping }

unfoldable pub publish : RecordingSession → SourceManager → SourceManager
publish dto m = publish_entry (get dto.id m.stopping) dto m

abbrev pub cons_option : {A : Type 0} → Option A → List A → List A
cons_option none xs = xs
cons_option (some x) xs = x ∷ xs

abbrev pub take_all : List String → SourceManager → SourceManager × List StopJob
take_all [] m = (m, [])
take_all (id ∷ ids) m =
    let r = take_session id m in let rest = take_all ids r.0 in (rest.0, cons_option r.1 rest.1)

pub record Teardown : Type 0 where
  pub source_id : String
  pub pipeline : MonitorPipeline
  pub stops : List StopJob

abbrev pub sessions_of : String → SourceManager → List String
sessions_of source m =
    map (λ (e : String × ActiveSession). e.0) (retain (records source) m.sessions)

abbrev pub disconnect_entry :
    Option MonitorPipeline → String → SourceManager → SourceManager × Option Teardown
disconnect_entry none source m = (m, none)
disconnect_entry (some pipeline) source m =
    let r = take_all (sessions_of source m) (record m { monitors = delete source m.monitors }) in
    (r.0, some (record { source_id = source; pipeline = pipeline; stops = r.1 }))

-- A source's monitor goes, and the sessions on it stop.
unfoldable pub disconnect : String → SourceManager → SourceManager × Option Teardown
disconnect source m = disconnect_entry (get source m.monitors) source m
