-- ===== src/Sources/Marking.antt =====
-- What the end of a start and the changes of markers do to each recording.
use capture_room.Prelude.{
  ◌+◌, ◌||◌, map, ℕ, ◌≡◌, refl, inl, inr, true, Option, none, some, List, String, ltb, get, put,
  delete, get-put, get-put_other, get-delete, get-delete_other, Bool-cases,
}
use capture_room.Sources.{
  Marker, RecordingLeg, ActiveSession, MonitorPipeline, SourceManager, is_current, first_frame,
}
use capture_room.Sources.Recordings.{
  RecordingStart, Started, failed, running, finish_start_recording, release,
}
use capture_room.Sources.Markers.{
  with_markers, set_markers, mark_leeway, MarkRequest, MarkerUpdate, Marked, unmarked, marked,
  mark_at, mark_from, mark_entry, mark_session, update_marker, updated_in, update_entry,
  update_active_marker, remove_marker, deleted_in, delete_entry, delete_active_marker, mark_time,
}
use capture_room.Sources.Turning.{put_session-Turned}
use capture_room.Sources.Places.{at, places, Turns, stays, starts, releases, Turned, Settled, at_id}

release-Settled : (id : String) (m : SourceManager) → Settled m (release id m)
release-Settled id m i =
    at_id (λ i. Turns true (places i m) (places i (release id m))) id i
      (rw (get-delete id m.reserved) releases) (λ d. rw (get-delete_other id i m.reserved d) stays)

-- A start in flight has its reservation.
abbrev pub IsReserved : RecordingStart → SourceManager → Type 0
IsReserved start m =
    get start.dto.id m.reserved
    ≡ some (record { source_id = start.dto.source_id; paths = start.dto.output_paths })

pub finish_start_recording-Settled :
    (started : Started) (start : RecordingStart) (m : SourceManager)
    → IsReserved start m
    → Settled m (finish_start_recording started start m).0
unfolding finish_start_recording
finish_start_recording-Settled (failed e) start m g i = release-Settled start.dto.id m i
finish_start_recording-Settled (running legs) start m g i =
    elim (Bool-cases (is_current start.dto.source_id start.monitor (release start.dto.id m))) [
      | inl e ↦ rw e (by_id)
      | inr e ↦ rw e (release-Settled start.dto.id m i)
    ]
  where
    session : ActiveSession
    session = record {
      legs = legs;
      dto = record start.dto { files = map (λ (l : RecordingLeg). l.files) legs };
      failed_legs = 0;
    }

    by_id : Turns true (places i m) (
        at
          (get i (put start.dto.id session m.sessions))
          (get i (delete start.dto.id m.reserved))
          (get i m.stopping))
    by_id =
        at_id
          (λ i. Turns true (places i m) (
            at (get i (put start.dto.id session m.sessions))
              (get i (delete start.dto.id m.reserved)) (get i m.stopping)))
          start.dto.id i
          (rw (g, get-put start.dto.id session m.sessions, get-delete start.dto.id m.reserved)
            (starts refl refl))
          (λ d.
            rw
              (
                get-put_other start.dto.id i session m.sessions d,
                get-delete_other start.dto.id i m.reserved d,
              )
              stays)

pub finish_start_recording-reserved :
    (started : Started) (start : RecordingStart) (m : SourceManager)
    → (finish_start_recording started start m).0.reserved ≡ delete start.dto.id m.reserved
unfolding finish_start_recording
finish_start_recording-reserved (failed e) start m = refl
finish_start_recording-reserved (running legs) start m =
    elim (Bool-cases (is_current start.dto.source_id start.monitor (release start.dto.id m))) [
      | inl e ↦ rw e refl
      | inr e ↦ rw e refl
    ]

abbrev pub marked_manager : Marked → SourceManager → SourceManager
marked_manager (unmarked e) m = m
marked_manager (marked dto marker m') m = m'

-- A session's markers change, and nothing that it claims.
with_markers-Turned :
    (id : String) (markers : List Marker) (s : ActiveSession) (m : SourceManager)
    → get id m.sessions ≡ some s
    → Turned m (set_markers id markers s m)
with_markers-Turned id markers s m g =
    put_session-Turned id s (with_markers markers s) m g refl refl

mark_from-Turned :
    (first : Option ℕ) (now time : ℕ) (uuid id : String) (req : MarkRequest) (s : ActiveSession)
    (m : SourceManager)
    → get id m.sessions ≡ some s
    → Turned m (marked_manager (mark_from first now time uuid id req s m) m)
mark_from-Turned none now time uuid id req s m g i = stays
mark_from-Turned (some first) now time uuid id req s m g i =
    elim (Bool-cases (ltb time first || ltb (now + mark_leeway) time)) [
      | inl e ↦ rw e stays
      | inr e ↦ rw e (with_markers-Turned id _ s m g i)
    ]

pub mark_session-Turned :
    (now : Option ℕ) (uuid id : String) (req : MarkRequest) (m : SourceManager)
    → Turned m (marked_manager (mark_session now uuid id req m) m)
unfolding mark_session
mark_session-Turned now uuid id req m = by_entry (get id m.sessions) refl
  where
    by_monitor :
        (o : Option MonitorPipeline) (now : Option ℕ) (s : ActiveSession)
        → get id m.sessions ≡ some s
        → Turned m (marked_manager (mark_at o now uuid id req s m) m)
    by_monitor none now s g i = stays
    by_monitor (some monitor) none s g i = stays
    by_monitor (some monitor) (some now) s g i =
        mark_from-Turned (first_frame s.legs) now (mark_time req.at s.dto.clock now) uuid id req s m
          g i

    by_entry :
        (o : Option ActiveSession)
        → get id m.sessions ≡ o
        → Turned m (marked_manager (mark_entry o now uuid id req m) m)
    by_entry none g i = stays
    by_entry (some s) g i = by_monitor (get s.dto.source_id m.monitors) now s g i

pub update_active_marker-Turned :
    (u : MarkerUpdate) (marker_id id : String) (m : SourceManager)
    → Turned m (update_active_marker u marker_id id m).0
unfolding update_active_marker
update_active_marker-Turned u marker_id id m = by_entry (get id m.sessions) refl
  where
    by_marker :
        (o : Option (List Marker × Marker)) (s : ActiveSession)
        → get id m.sessions ≡ some s
        → Turned m (updated_in o id s m).0
    by_marker none s g i = stays
    by_marker (some r) s g i = with_markers-Turned id r.0 s m g i

    by_entry :
        (o : Option ActiveSession)
        → get id m.sessions ≡ o
        → Turned m (update_entry o u marker_id id m).0
    by_entry none g i = stays
    by_entry (some s) g i = by_marker (update_marker u marker_id s.dto.markers) s g i

pub delete_active_marker-Turned :
    (marker_id id : String) (m : SourceManager) → Turned m (delete_active_marker marker_id id m).0
unfolding delete_active_marker
delete_active_marker-Turned marker_id id m = by_entry (get id m.sessions) refl
  where
    by_marker :
        (o : Option (List Marker)) (s : ActiveSession)
        → get id m.sessions ≡ some s
        → Turned m (deleted_in o id s m).0
    by_marker none s g i = stays
    by_marker (some r) s g i = with_markers-Turned id r s m g i

    by_entry :
        (o : Option ActiveSession)
        → get id m.sessions ≡ o
        → Turned m (delete_entry o marker_id id m).0
    by_entry none g i = stays
    by_entry (some s) g i = by_marker (remove_marker marker_id s.dto.markers) s g i
