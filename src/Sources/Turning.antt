-- ===== src/Sources/Turning.antt =====
-- What each operation does to each recording.
use capture_room.Prelude.{
  ◌+◌, leb, length, ◌≡◌, refl, inl, inr, false, Option, none, some, List, [], ◌∷◌, String, get, put,
  delete, get-put, get-put_other, get-delete, get-delete_other, Bool-cases,
}
use capture_room.Sources.{
  RecordingSession, Reservation, ActiveSession, MonitorPipeline, SourceManager,
}
use capture_room.Sources.Ends.{
  fail_leg, StopJob, take_entry, take_session, stop_with, begin_stop_recording, finish_stop,
  LegFailure, note_entry, note_leg_failure, stop_failed, report_leg_failure, publish_entry, publish,
  take_all, disconnect, disconnect_entry, sessions_of,
}
use capture_room.Sources.Places.{
  at, Places, places, Turns, stays, refreshes, stops, publishes, closes, Turned, at_id,
}

pub put_session-Turned :
    (id : String) (s t : ActiveSession) (m : SourceManager)
    → get id m.sessions ≡ some s
    → t.dto.source_id ≡ s.dto.source_id
    → t.dto.output_paths ≡ s.dto.output_paths
    → Turned m (record m { sessions = put id t m.sessions })
put_session-Turned id s t m g e f i =
    at_id (λ i. Turns false (places i m) (places i (record m { sessions = put id t m.sessions })))
      id i (rw (g, get-put id t m.sessions) (refreshes e f))
      (λ d. rw (get-put_other id i t m.sessions d) stays)

-- The first of two moves of one recording, when the second can only stop it.
pub data Stopping : Places → Places → Type 0 where
  kept : {p : Places} → Stopping p p
  taken :
      {s : ActiveSession} {r : Option Reservation} {c : Option (Option RecordingSession)}
      → Stopping (at (some s) r c) (at none r (some none))

Stopping-trans : {p q r : Places} → Stopping p q → Stopping q r → Stopping p r
Stopping-trans kept k = k
Stopping-trans taken kept = taken

Stopping-Turns : {p q : Places} → Stopping p q → Turns false p q
Stopping-Turns kept = stays
Stopping-Turns taken = stops

pub take_session-Stopping :
    (id : String) (m : SourceManager) (i : String)
    → Stopping (places i m) (places i (take_session id m).0)
unfolding take_session
take_session-Stopping id m i = by_entry (get id m.sessions) refl
  where
    by_entry :
        (o : Option ActiveSession)
        → get id m.sessions ≡ o
        → Stopping (places i m) (places i (take_entry o id m).0)
    by_entry none g = kept
    by_entry (some s) g =
        at_id (λ i. Stopping (places i m) (places i (take_entry (some s) id m).0)) id i
          (rw (g, get-delete id m.sessions, get-put id none m.stopping) taken)
          (λ d. rw (get-delete_other id i m.sessions d, get-put_other id i none m.stopping d) kept)

pub take_session-Turned : (id : String) (m : SourceManager) → Turned m (take_session id m).0
take_session-Turned id m i = Stopping-Turns (take_session-Stopping id m i)

stop_with-0 :
    (o : Option StopJob) (r : Option (Option RecordingSession)) (m : SourceManager)
    → (stop_with o r m).0 ≡ m
stop_with-0 none r m = refl
stop_with-0 (some job) r m = refl

pub begin_stop_recording-0 :
    (id : String) (m : SourceManager) → (begin_stop_recording id m).0 ≡ (take_session id m).0
unfolding begin_stop_recording
begin_stop_recording-0 id m = stop_with-0 _ _ _

pub begin_stop_recording-Turned :
    (id : String) (m : SourceManager) → Turned m (begin_stop_recording id m).0
begin_stop_recording-Turned id m = rw (begin_stop_recording-0 id m) (take_session-Turned id m)

pub finish_stop-Turned : (id : String) (m : SourceManager) → Turned m (finish_stop id m)
unfolding finish_stop
finish_stop-Turned id m i =
    at_id (λ i. Turns false (places i m) (places i (finish_stop id m))) id i
      (rw (get-delete id m.stopping) closes) (λ d. rw (get-delete_other id i m.stopping d) stays)

pub publish-Turned : (dto : RecordingSession) (m : SourceManager) → Turned m (publish dto m)
unfolding publish
publish-Turned dto m i = by_entry (get dto.id m.stopping) refl
  where
    by_entry :
        (o : Option (Option RecordingSession))
        → get dto.id m.stopping ≡ o
        → Turns false (places i m) (places i (publish_entry o dto m))
    by_entry none g = stays
    by_entry (some r) g =
        at_id (λ i. Turns false (places i m) (places i (publish_entry (some r) dto m))) dto.id i
          (rw (g, get-put dto.id (some dto) m.stopping) publishes)
          (λ d. rw (get-put_other dto.id i (some dto) m.stopping d) stays)

-- A failure that every leg has met stops the session, and any other leaves it where it is.
pub report_leg_failure-Turned :
    (f : LegFailure) (m : SourceManager) → Turned m (report_leg_failure f m).0
unfolding report_leg_failure note_leg_failure take_session
report_leg_failure-Turned f m = by_entry (get f.session_id m.sessions) refl
  where
    id : String
    id = f.session_id

    failing : (s : ActiveSession) → SourceManager
    failing s = record m { sessions = put id (fail_leg f s) m.sessions }

    stopped :
        (s : ActiveSession) → get id m.sessions ≡ some s → Turned m (take_session id (failing s)).0
    stopped s g i =
        at_id
          (λ i.
            Turns false (places i m)
              (places i (take_entry (get id (put id (fail_leg f s) m.sessions)) id (failing s)).0))
          id i
          (rw
            (
              get-put id (fail_leg f s) m.sessions,
              g,
              get-delete id (put id (fail_leg f s) m.sessions),
              get-put id none m.stopping,
            )
            stops)
          (λ d.
            rw
              (
                get-put id (fail_leg f s) m.sessions,
                get-delete_other id i (put id (fail_leg f s) m.sessions) d,
                get-put_other id i (fail_leg f s) m.sessions d,
                get-put_other id i none m.stopping d,
              )
              stays)

    by_entry :
        (o : Option ActiveSession)
        → get id m.sessions ≡ o
        → Turned m (stop_failed (note_entry o f m).1 id (note_entry o f m).0).0
    by_entry none g i = stays
    by_entry (some s) g i = elim (Bool-cases (leb (length s.legs) (s.failed_legs + 1))) [
      | inl e ↦ rw (e, begin_stop_recording-0 id (failing s)) (stopped s g i)
      | inr e ↦ rw e (put_session-Turned id s (fail_leg f s) m g refl refl i)
    ]

take_all-Stopping :
    (ids : List String) (m : SourceManager) (i : String)
    → Stopping (places i m) (places i (take_all ids m).0)
take_all-Stopping [] m i = kept
take_all-Stopping (id ∷ ids) m i =
    Stopping-trans (take_session-Stopping id m i) (take_all-Stopping ids (take_session id m).0 i)

pub disconnect-Turned : (source : String) (m : SourceManager) → Turned m (disconnect source m).0
unfolding disconnect
disconnect-Turned source m = by_monitor (get source m.monitors)
  where
    by_monitor : (o : Option MonitorPipeline) → Turned m (disconnect_entry o source m).0
    by_monitor none i = stays
    by_monitor (some pipeline) i = Stopping-Turns (
        take_all-Stopping (sessions_of source m) (record m { monitors = delete source m.monitors })
          i)
