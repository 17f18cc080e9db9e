-- ===== src/Sources/Recordings.antt =====
-- node/src/sources/manager.rs: starting a recording in two steps, the second once its legs have started
-- off the lock.
use capture_room.Prelude.{
  ℕ, ◌+◌, ◌*◌, Bool, true, false, ◌&&◌, ◌||◌, Option, none, some, List, [], ◌∷◌, map, String,
  str_eq, ◌==◌, ltb, if◌then◌else◌, any, get, put, delete, contains, ℤ,
}
use capture_room.Sources.{
  active, ClockTime, SessionClock, RecordingSession, RecordingLeg, ActiveSession, Reservation,
  MonitorPipeline, SourceManager, is_recording, is_current, useconds,
}

-- Ten seconds.
abbrev pub max_start_lead : ℕ
max_start_lead = 10000000000

pub record StartRecordingRequest : Type 0 where
  pub source_id : String
  pub preset_id : Option String
  pub preset_name : Option String
  pub start_at : Option ClockTime

pub record RecordingStart : Type 0 where
  pub monitor : MonitorPipeline
  pub start_at : Option ℕ
  pub utc_offset_us : Option ℤ
  pub dto : RecordingSession

pub data StartError : Type 0 where
  already_recording no_monitor too_far restarted : StartError
  path_exists legs_failed : String → StartError

-- What a start reads outside the manager: the node clock's time, the offset that this machine's own
-- clock gives, the files that exist, and a new identifier.
pub record Surroundings : Type 0 where
  pub now : ℕ
  pub local_utc_offset_us : Option ℤ
  pub exists : String → Bool
  pub uuid : String

abbrev pub writes : String → String × ActiveSession → Bool
writes path e = contains path e.1.dto.output_paths

abbrev pub takes : String → String × Reservation → Bool
takes path e = contains path e.1.paths

-- Another recording has the path.
abbrev pub is_taken : String → SourceManager → Bool
is_taken path m = any (writes path) m.sessions || any (takes path) m.reserved

-- The first path that is not free.
abbrev pub occupied : (String → Bool) → SourceManager → List String → Option String
occupied exists m [] = none
occupied exists m (path ∷ paths) =
    if is_taken path m || exists path then some path else occupied exists m paths

pub data Begun : Type 0 where
  refused : StartError → Begun
  begun : RecordingStart → SourceManager → Begun

-- A start time counts on the node's clock and domain.
abbrev pub start_time : Bool → Option ClockTime → String → Option ℕ
start_time on_node_clock none domain = none
start_time on_node_clock (some at) domain =
    if on_node_clock && str_eq at.domain domain then some (at.time_us * 1000) else none

abbrev pub is_too_far : ℕ → Option ℕ → Bool
is_too_far now none = false
is_too_far now (some at) = ltb (now + max_start_lead) at

abbrev pub or_else : {A : Type 0} → Option A → Option A → Option A
or_else none b = b
or_else (some a) b = some a

abbrev pub or_empty : Option String → String
or_empty none = ""
or_empty (some s) = s

abbrev pub session_clock : Bool → Option ℕ → Option ℤ → String → Option SessionClock
session_clock false at offset domain = none
session_clock true at offset domain = some (record {
  domain = domain;
  start_at_us = useconds at;
  first_frame_us = none;
  utc_offset_us = offset;
})

abbrev pub start_with :
    Bool
    → Option ℕ
    → Option ℤ
    → MonitorPipeline
    → StartRecordingRequest
    → List String
    → Surroundings
    → SourceManager
    → Begun
start_with on_node_clock at offset monitor req paths env m =
    begun
      (record {
        monitor = monitor;
        start_at = at;
        utc_offset_us = offset;
        dto = record {
          id = env.uuid;
          source_id = req.source_id;
          preset_id = or_empty req.preset_id;
          preset_name = req.preset_name;
          output_paths = paths;
          dropped_frames = map (λ (p : String). 0) paths;
          files = [];
          status = active;
          error_message = none;
          clock = session_clock on_node_clock at offset m.clock_domain;
          markers = [];
        };
      })
      (record m {
        reserved = put env.uuid (record { source_id = req.source_id; paths = paths }) m.reserved;
      })

-- Off the node clock, this machine's own clock maps to the time of day.
abbrev pub offset_on : Bool → Option ℤ → Option ℤ → Option ℤ
offset_on false offset local = local
offset_on true offset local = or_else offset local

abbrev pub start_free :
    Option String
    → MonitorPipeline
    → StartRecordingRequest
    → List String
    → Option ℤ
    → Surroundings
    → SourceManager
    → Begun
start_free (some path) monitor req paths offset env m = refused (path_exists path)
start_free none monitor req paths offset env m =
    let on_node_clock = monitor.clock == m.clock in
    let at = start_time on_node_clock req.start_at m.clock_domain in
    if is_too_far env.now at
    then refused too_far
    else (start_with on_node_clock at (offset_on on_node_clock offset env.local_utc_offset_us)
        monitor req paths env m)

abbrev pub start_on :
    Option MonitorPipeline
    → StartRecordingRequest
    → List String
    → Option ℤ
    → Surroundings
    → SourceManager
    → Begun
start_on none req paths offset env m = refused no_monitor
start_on (some monitor) req paths offset env m =
    start_free (occupied env.exists m paths) monitor req paths offset env m

unfoldable pub begin_start_recording :
    StartRecordingRequest → List String → Option ℤ → Surroundings → SourceManager → Begun
begin_start_recording req paths offset env m =
    if is_recording req.source_id m
    then refused already_recording
    else start_on (get req.source_id m.monitors) req paths offset env m

-- A start's legs, or why they did not start.
pub data Started : Type 0 where
  failed : String → Started
  running : List RecordingLeg → Started

pub data Finished : Type 0 where
  discarded : StartError → List RecordingLeg → Finished
  recording : RecordingSession → Finished

abbrev pub release : String → SourceManager → SourceManager
release id m = record m { reserved = delete id m.reserved }

abbrev pub with_files : List RecordingLeg → RecordingSession → RecordingSession
with_files legs dto = record dto { files = map (λ (l : RecordingLeg). l.files) legs }

abbrev pub add_session :
    List RecordingLeg → RecordingSession → SourceManager → SourceManager × Finished
add_session legs dto m = (
  record m {
    sessions = put dto.id (record { legs = legs; dto = dto; failed_legs = 0 }) m.sessions;
  },
  recording dto,
)

abbrev pub finish_with : Started → RecordingStart → SourceManager → SourceManager × Finished
finish_with (failed e) start m = (m, discarded (legs_failed e) [])
finish_with (running legs) start m =
    if is_current start.dto.source_id start.monitor m
    then add_session legs (with_files legs start.dto) m
    else (m, discarded restarted legs)

unfoldable pub finish_start_recording :
    Started → RecordingStart → SourceManager → SourceManager × Finished
finish_start_recording started start m = finish_with started start (release start.dto.id m)
