-- ===== src/Sources.antt =====
-- node/src/sources/manager.rs: a node's sources, their monitors, and the recordings on them. Times of
-- the pipelines are nanoseconds. A pipeline or a clock is known by a number, what a leg reports while
-- it runs is a value that the environment changes, and descriptive fields are left out.
pub mod Recordings
pub mod Markers
pub mod Ends
pub mod Places
pub mod Turning
pub mod Marking
pub mod Begin
pub mod Runs
pub mod Lives
pub mod Phases
pub mod Order
pub mod Failures
mod Examples
use capture_room.Prelude.{
  ℕ, ◌+◌, ◌*◌, ◌/◌, min, Bool, true, false, ◌&&◌, ◌||◌, Option, none, some, List, [], ◌∷◌, map,
  String, str_eq, ◌==◌, any, get, ℤ,
}

pub data RecordingStatus : Type 0 where
  active stopped error : RecordingStatus

pub data MarkerColor : Type 0 where
  blue cyan green yellow red pink purple : MarkerColor

pub record ClockTime : Type 0 where
  pub domain : String
  pub time_us : ℕ

pub record SessionClock : Type 0 where
  pub domain : String
  pub start_at_us : Option ℕ
  pub first_frame_us : Option ℕ
  pub utc_offset_us : Option ℤ

pub record Timecode : Type 0 where
  pub text : String
  pub fps : String

pub record Marker : Type 0 where
  pub id : String
  pub press_id : String
  pub at_us : ℕ
  pub fps : Option String
  pub timecode : Option String
  pub note : String
  pub color : MarkerColor

pub record RecordingSession : Type 0 where
  pub id : String
  pub source_id : String
  pub preset_id : String
  pub preset_name : Option String
  pub output_paths : List String
  pub dropped_frames : List ℕ
  pub files : List (List String)
  pub status : RecordingStatus
  pub error_message : Option String
  pub clock : Option SessionClock
  pub markers : List Marker

-- What a leg reports.
pub record RecordingLeg : Type 0 where
  pub files : List String
  pub dropped_frames : ℕ
  pub first_frame : Option ℕ
  pub timecode_at : ℕ → Option Timecode

pub record ActiveSession : Type 0 where
  pub legs : List RecordingLeg
  pub dto : RecordingSession
  pub failed_legs : ℕ

pub record Reservation : Type 0 where
  pub source_id : String
  pub paths : List String

pub record MonitorPipeline : Type 0 where
  pub serial : ℕ
  pub clock : ℕ
  pub error : Option String

-- `stopping` holds what a stop has published.
pub record SourceManager : Type 0 where
  pub clock : ℕ
  pub clock_domain : String
  pub monitors : List (String × MonitorPipeline)
  pub sessions : List (String × ActiveSession)
  pub reserved : List (String × Reservation)
  pub stopping : List (String × Option RecordingSession)

unfoldable pub new : ℕ → String → SourceManager
new clock domain = record {
  clock = clock;
  clock_domain = domain;
  monitors = [];
  sessions = [];
  reserved = [];
  stopping = [];
}

abbrev pub earlier : Option ℕ → Option ℕ → Option ℕ
earlier none b = b
earlier (some a) none = some a
earlier (some a) (some b) = some (min a b)

-- The first frame of the earliest leg that has one.
abbrev pub first_frame : List RecordingLeg → Option ℕ
first_frame [] = none
first_frame (l ∷ legs) = earlier l.first_frame (first_frame legs)

abbrev pub useconds : Option ℕ → Option ℕ
useconds none = none
useconds (some t) = some (t / 1000)

abbrev pub begun_at : Option ℕ → Option SessionClock → Option SessionClock
begun_at first none = none
begun_at first (some c) = some (record c { first_frame_us = useconds first })

-- A session's description with what its legs report now.
abbrev pub live : ActiveSession → RecordingSession
live s = record s.dto {
  dropped_frames = map (λ (l : RecordingLeg). l.dropped_frames) s.legs;
  files = map (λ (l : RecordingLeg). l.files) s.legs;
  clock = begun_at (first_frame s.legs) s.dto.clock;
}

abbrev pub live_option : Option ActiveSession → Option RecordingSession
live_option none = none
live_option (some s) = some (live s)

unfoldable pub active_session : String → SourceManager → Option RecordingSession
active_session id m = live_option (get id m.sessions)

abbrev pub records : String → String × ActiveSession → Bool
records source e = str_eq e.1.dto.source_id source

abbrev pub reserves : String → String × Reservation → Bool
reserves source e = str_eq e.1.source_id source

-- The source records, or is about to.
unfoldable pub is_recording : String → SourceManager → Bool
is_recording source m = any (records source) m.sessions || any (reserves source) m.reserved

abbrev pub same_monitor : Option MonitorPipeline → MonitorPipeline → Bool
same_monitor none monitor = false
same_monitor (some m) monitor = m.serial == monitor.serial

unfoldable pub is_current : String → MonitorPipeline → SourceManager → Bool
is_current source monitor m = same_monitor (get source m.monitors) monitor
