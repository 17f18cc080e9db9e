-- ===== src/Sources/Runs.antt =====
-- The manager with the starts that are in flight, over any order of steps.
use capture_room.Prelude.{◌≡◌, ℕ, Option, none, some, List, [], String, get, put, delete, ℤ}
use capture_room.Sources.{
  RecordingSession, RecordingLeg, ActiveSession, MonitorPipeline, SourceManager, new,
}
use capture_room.Sources.Recordings.{
  StartRecordingRequest, RecordingStart, Surroundings, Begun, refused, begun, Started,
  begin_start_recording, finish_start_recording,
}
use capture_room.Sources.Markers.{
  MarkRequest, MarkerUpdate, mark_session, update_active_marker, delete_active_marker,
}
use capture_room.Sources.Ends.{
  LegFailure, begin_stop_recording, finish_stop, publish, report_leg_failure, disconnect,
}
use capture_room.Sources.Places.{at, places, IsAlone, Apart}
use capture_room.Sources.Marking.{IsReserved, marked_manager}

-- Starts in flight are known by the identifiers of their sessions.
pub record World : Type 0 where
  pub manager : SourceManager
  pub starts : List (String × RecordingStart)

-- A start's outcome in the world: a start that is let through is in flight.
abbrev pub after : Begun → World → World
after (refused e) w = w
after (begun start m) w = record { manager = m; starts = put start.dto.id start w.starts }

abbrev pub IsFresh : String → World → Type 0
IsFresh id w = places id w.manager ≡ at none none none

-- One step, of a request, of a task in the background or of the pipelines.
pub data Step : World → World → Type 0 where
  connects :
      {w : World} (source : String) (monitor : MonitorPipeline)
      → Step w (record w {
        manager = record w.manager { monitors = put source monitor w.manager.monitors };
      })
  disconnects :
      {w : World} (source : String)
      → Step w (record w { manager = (disconnect source w.manager).0 })
  begins :
      {w : World} (req : StartRecordingRequest) (paths : List String) (offset : Option ℤ)
      (env : Surroundings)
      → IsFresh env.uuid w
      → Step w (after (begin_start_recording req paths offset env w.manager) w)
  finishes :
      {w : World} (id : String) (start : RecordingStart) (started : Started)
      → get id w.starts ≡ some start
      → Step w (record {
        manager = (finish_start_recording started start w.manager).0;
        starts = delete id w.starts;
      })
  runs :
      {w : World} (id : String) (s : ActiveSession) (legs : List RecordingLeg)
      → get id w.manager.sessions ≡ some s
      → Step w (record w {
        manager = record w.manager {
          sessions = put id (record s { legs = legs }) w.manager.sessions;
        };
      })
  marks :
      {w : World} (now : Option ℕ) (uuid id : String) (req : MarkRequest)
      → Step w
          (record w { manager = marked_manager (mark_session now uuid id req w.manager) w.manager })
  updates :
      {w : World} (u : MarkerUpdate) (marker_id id : String)
      → Step w (record w { manager = (update_active_marker u marker_id id w.manager).0 })
  deletes :
      {w : World} (marker_id id : String)
      → Step w (record w { manager = (delete_active_marker marker_id id w.manager).0 })
  reports :
      {w : World} (f : LegFailure)
      → Step w (record w { manager = (report_leg_failure f w.manager).0 })
  stops :
      {w : World} (id : String)
      → Step w (record w { manager = (begin_stop_recording id w.manager).0 })
  publishes :
      {w : World} (dto : RecordingSession) → Step w (record w { manager = publish dto w.manager })
  closes : {w : World} (id : String) → Step w (record w { manager = finish_stop id w.manager })

pub data Reaches : World → Type 0 where
  idle :
      (clock : ℕ) (domain : String) → Reaches (record { manager = new clock domain; starts = [] })
  then : {w v : World} → Reaches w → Step w v → Reaches v

abbrev pub IsInFlight : String → RecordingStart → SourceManager → Type 0
IsInFlight id start m = (start.dto.id ≡ id) × IsReserved start m

pub record Sound (w : World) : Type 0 where
  pub alone : (i : String) → IsAlone (places i w.manager)
  pub apart : Apart w.manager
  pub flying :
      (i : String) (start : RecordingStart)
      → get i w.starts ≡ some start
      → IsInFlight i start w.manager
