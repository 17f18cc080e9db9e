-- ===== src/Sources/Markers.antt =====
-- node/src/sources/manager.rs: markers on a session while it records.
use capture_room.Prelude.{
  ℕ, ◌+◌, ◌*◌, ◌/◌, Bool, false, ◌||◌, Option, none, some, List, [], ◌∷◌, String, str_eq, ltb, leb,
  if◌then◌else◌, get, put,
}
use capture_room.Sources.{
  ClockTime, SessionClock, Marker, MarkerColor, blue, Timecode, RecordingSession, RecordingLeg,
  ActiveSession, MonitorPipeline, SourceManager, first_frame, live,
}

-- Half a second.
abbrev pub mark_leeway : ℕ
mark_leeway = 500000000

pub data MarkError : Type 0 where
  not_active not_yet out_of_range : MarkError

pub record MarkRequest : Type 0 where
  pub press_id : String
  pub at : Option ClockTime
  pub note : Option String
  pub color : Option MarkerColor

pub record MarkerUpdate : Type 0 where
  pub note : Option String
  pub color : Option MarkerColor

abbrev pub given : {A : Type 0} → Option A → A → A
given none a = a
given (some b) a = b

unfoldable pub apply_marker_update : MarkerUpdate → Marker → Marker
apply_marker_update u m = record m { note = given u.note m.note; color = given u.color m.color }

abbrev pub is_on : ClockTime → Option SessionClock → Bool
is_on at none = false
is_on at (some c) = str_eq at.domain c.domain

-- The requested time on the session's own clock, otherwise now.
abbrev pub mark_time : Option ClockTime → Option SessionClock → ℕ → ℕ
mark_time none clock now = now
mark_time (some at) clock now = if is_on at clock then at.time_us * 1000 else now

abbrev pub timecode_at : List RecordingLeg → ℕ → Option Timecode
timecode_at [] at = none
timecode_at (l ∷ legs) at = given_or (l.timecode_at at) (timecode_at legs at)
  where
    given_or : Option Timecode → Option Timecode → Option Timecode
    given_or none b = b
    given_or (some a) b = some a

abbrev pub text_of : Option Timecode → Option String
text_of none = none
text_of (some tc) = some tc.text

abbrev pub fps_of : Option Timecode → Option String
fps_of none = none
fps_of (some tc) = some tc.fps

-- After the markers up to its time.
abbrev pub insert_marker : Marker → List Marker → List Marker
insert_marker m [] = m ∷ []
insert_marker m (x ∷ xs) =
    let rest = insert_marker m xs in if leb x.at_us m.at_us then x ∷ rest else m ∷ x ∷ xs

pub data Marked : Type 0 where
  unmarked : MarkError → Marked
  marked : RecordingSession → Marker → SourceManager → Marked

abbrev pub with_markers : List Marker → ActiveSession → ActiveSession
with_markers markers s = record s { dto = record s.dto { markers = markers } }

abbrev pub new_marker : String → MarkRequest → ℕ → Option Timecode → Marker
new_marker uuid req at tc = record {
  id = uuid;
  press_id = req.press_id;
  at_us = at / 1000;
  fps = fps_of tc;
  timecode = text_of tc;
  note = given req.note "";
  color = given req.color blue;
}

abbrev pub add_marker : String → Marker → ActiveSession → SourceManager → Marked
add_marker id marker s m =
    let s' = with_markers (insert_marker marker s.dto.markers) s in
    marked (live s') marker (record m { sessions = put id s' m.sessions })

abbrev pub mark_from :
    Option ℕ → ℕ → ℕ → String → String → MarkRequest → ActiveSession → SourceManager → Marked
mark_from none now at uuid id req s m = unmarked not_yet
mark_from (some first) now at uuid id req s m =
    if ltb at first || ltb (now + mark_leeway) at
    then unmarked out_of_range
    else add_marker id (new_marker uuid req at (timecode_at s.legs at)) s m

-- `now` is what the monitor's clock says, if anything.
abbrev pub mark_at :
    Option MonitorPipeline
    → Option ℕ
    → String
    → String
    → MarkRequest
    → ActiveSession
    → SourceManager
    → Marked
mark_at none now uuid id req s m = unmarked not_active
mark_at (some monitor) none uuid id req s m = unmarked not_yet
mark_at (some monitor) (some now) uuid id req s m =
    mark_from (first_frame s.legs) now (mark_time req.at s.dto.clock now) uuid id req s m

abbrev pub mark_entry :
    Option ActiveSession → Option ℕ → String → String → MarkRequest → SourceManager → Marked
mark_entry none now uuid id req m = unmarked not_active
mark_entry (some s) now uuid id req m = mark_at (get s.dto.source_id m.monitors) now uuid id req s m

unfoldable pub mark_session : Option ℕ → String → String → MarkRequest → SourceManager → Marked
mark_session now uuid id req m = mark_entry (get id m.sessions) now uuid id req m

-- The markers with the first of the identifier changed, and that marker.
abbrev pub update_marker : MarkerUpdate → String → List Marker → Option (List Marker × Marker)
update_marker u id [] = none
update_marker u id (x ∷ xs) =
    let rest = update_marker u id xs in
    if str_eq x.id id
    then some (apply_marker_update u x ∷ xs, apply_marker_update u x)
    else behind rest
  where
    behind : Option (List Marker × Marker) → Option (List Marker × Marker)
    behind none = none
    behind (some r) = some (x ∷ r.0, r.1)

abbrev pub remove_marker : String → List Marker → Option (List Marker)
remove_marker id [] = none
remove_marker id (x ∷ xs) =
    let rest = remove_marker id xs in if str_eq x.id id then some xs else behind rest
  where
    behind : Option (List Marker) → Option (List Marker)
    behind none = none
    behind (some r) = some (x ∷ r)

abbrev pub set_markers : String → List Marker → ActiveSession → SourceManager → SourceManager
set_markers id markers s m = record m { sessions = put id (with_markers markers s) m.sessions }

abbrev pub updated_in :
    Option (List Marker × Marker)
    → String
    → ActiveSession
    → SourceManager
    → SourceManager × Option (RecordingSession × Marker)
updated_in none id s m = (m, none)
updated_in (some r) id s m = (set_markers id r.0 s m, some (live (with_markers r.0 s), r.1))

abbrev pub update_entry :
    Option ActiveSession
    → MarkerUpdate
    → String
    → String
    → SourceManager
    → SourceManager × Option (RecordingSession × Marker)
update_entry none u marker_id id m = (m, none)
update_entry (some s) u marker_id id m = updated_in (update_marker u marker_id s.dto.markers) id s m

unfoldable pub update_active_marker :
    MarkerUpdate
    → String
    → String
    → SourceManager
    → SourceManager × Option (RecordingSession × Marker)
update_active_marker u marker_id id m = update_entry (get id m.sessions) u marker_id id m

abbrev pub deleted_in :
    Option (List Marker)
    → String
    → ActiveSession
    → SourceManager
    → SourceManager × Option RecordingSession
deleted_in none id s m = (m, none)
deleted_in (some r) id s m = (set_markers id r s m, some (live (with_markers r s)))

abbrev pub delete_entry :
    Option ActiveSession → String → String → SourceManager → SourceManager × Option RecordingSession
delete_entry none marker_id id m = (m, none)
delete_entry (some s) marker_id id m = deleted_in (remove_marker marker_id s.dto.markers) id s m

unfoldable pub delete_active_marker :
    String → String → SourceManager → SourceManager × Option RecordingSession
delete_active_marker marker_id id m = delete_entry (get id m.sessions) marker_id id m
