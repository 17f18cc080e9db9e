-- ===== src/Sources/Examples.antt =====
-- A camera recorded to two files: started, marked, failing and stopped.
use capture_room.Prelude.{ℕ, ◌≡◌, refl, true, false, none, some, List, [], ◌∷◌, String, get, length}
use capture_room.Sources.{
  MonitorPipeline, SourceManager, RecordingLeg, ActiveSession, new, is_recording, is_current,
  active_session,
}
use capture_room.Sources.Recordings.{
  StartRecordingRequest, Surroundings, RecordingStart, running, begin_start_recording,
  finish_start_recording,
}
use capture_room.Sources.Markers.{MarkRequest, mark_session}
use capture_room.Sources.Ends.{LegFailure, begin_stop_recording, report_leg_failure}
use capture_room.Sources.Places.{places, Moves, Apart, IsAlone, absent, starting}
use capture_room.Sources.Runs.{
  World, Step, connects, begins, finishes, Reaches, idle, then, IsInFlight, after,
}
use capture_room.Sources.Lives.{Reaches-Apart}
use capture_room.Sources.Phases.{Step-Moves, begin_stop_recording-Answers, Answers}
use capture_room.Sources.Order.{MarksRight, mark_session-MarksRight}
use capture_room.Sources.Failures.{report_all, Records, report_all-stops, report-starting_lost}

abbrev monitor : MonitorPipeline
monitor = record { serial = 4; clock = 1; error = none }

abbrev connected : World
connected = record {
  manager = record (new 1 "node") { monitors = ("cam", monitor) ∷ [] };
  starts = [];
}

abbrev request : StartRecordingRequest
request = record {
  source_id = "cam";
  preset_id = none;
  preset_name = none;
  start_at = some (record { domain = "node"; time_us = 2000000 });
}

abbrev env : Surroundings
env = record { now = 1000000000; local_utc_offset_us = none; exists = λ p. false; uuid = "s1" }

abbrev paths : List String
paths = "a.mov" ∷ "b.mov" ∷ []

abbrev requested : World
requested = after (begin_start_recording request paths none env connected.manager) connected

connected-Reaches : Reaches connected
unfolding new
connected-Reaches = then (idle 1 "node") (connects "cam" monitor)

requested-Reaches : Reaches requested
unfolding new
requested-Reaches = then connected-Reaches (begins request paths none env refl)

abbrev leg : ℕ → RecordingLeg
leg t = record {
  files = "a.mov" ∷ [];
  dropped_frames = 0;
  first_frame = some t;
  timecode_at = λ at. none;
}

abbrev legs : List RecordingLeg
legs = leg 2000000000 ∷ leg 2040000000 ∷ []

abbrev start : RecordingStart
start = record {
  monitor = monitor;
  start_at = some 2000000000;
  utc_offset_us = none;
  dto = record {
    id = "s1";
    source_id = "cam";
    preset_id = "";
    preset_name = none;
    output_paths = paths;
    dropped_frames = 0 ∷ 0 ∷ [];
    files = [];
    status = capture_room.Sources.RecordingStatus.active;
    error_message = none;
    clock = some (record {
      domain = "node";
      start_at_us = some 2000000;
      first_frame_us = none;
      utc_offset_us = none;
    });
    markers = [];
  };
}

in_flight : get "s1" requested.starts ≡ some start
unfolding begin_start_recording is_recording new
in_flight = refl

abbrev recording : World
recording = record {
  manager = (finish_start_recording (running legs) start requested.manager).0;
  starts = [];
}

recorded : Step requested (record {
  manager = (finish_start_recording (running legs) start requested.manager).0;
  starts = capture_room.Prelude.delete "s1" requested.starts;
})
recorded = finishes "s1" start (running legs) in_flight

Reaches-Apart_example :
    Apart requested.manager
    × ((i : String) → IsAlone (places i requested.manager))
    × ((i : String) (s : RecordingStart)
        → get i requested.starts ≡ some s
        → IsInFlight i s requested.manager)
Reaches-Apart_example = Reaches-Apart requested requested-Reaches

-- The recording enters its life, and then records.
Step-Moves_example : Moves absent starting
unfolding begin_start_recording is_recording new
Step-Moves_example =
    Step-Moves connected requested connected-Reaches (begins request paths none env refl) "s1"

begin_stop_recording-Answers_example :
    Answers starting (begin_stop_recording "s1" requested.manager).1
    × (get "s1" (begin_stop_recording "s1" requested.manager).0.sessions ≡ none)
unfolding begin_start_recording is_recording new
begin_stop_recording-Answers_example = begin_stop_recording-Answers requested requested-Reaches "s1"

abbrev mark : MarkRequest
mark = record {
  press_id = "p";
  at = some (record { domain = "node"; time_us = 2500000 });
  note = none;
  color = none;
}

mark_session-MarksRight_example :
    MarksRight
      (get "s1" recording.manager.sessions)
      (some 2600000000)
      "s1"
      mark
      recording.manager
      (mark_session (some 2600000000) "m1" "s1" mark recording.manager)
mark_session-MarksRight_example =
    mark_session-MarksRight (some 2600000000) "m1" "s1" mark recording.manager

abbrev failure : LegFailure
failure = record { session_id = "s1"; path = "a.mov"; error = "disk full" }

report_all-stops_example :
    Records "s1" legs 1 (report_all (failure ∷ []) recording.manager)
    × (get "s1"
          (report_leg_failure failure (report_all (failure ∷ []) recording.manager)).0.sessions
        ≡ none)
unfolding begin_start_recording finish_start_recording is_recording is_current new
report_all-stops_example =
    report_all-stops "s1" legs recording.manager (failure ∷ []) failure (_, refl, refl, refl)
      (refl, tt) refl refl

report-starting_lost_example :
    ((report_leg_failure failure requested.manager).0 ≡ requested.manager)
    × Records "s1" legs 1 (
        report_all
          (failure ∷ [])
          (finish_start_recording
            (running legs)
            start
            (report_leg_failure failure requested.manager).0).0)
unfolding begin_start_recording is_recording is_current new
report-starting_lost_example =
    report-starting_lost legs start requested.manager failure (failure ∷ []) refl refl refl
      (refl, tt) refl
