-- ===== src/Sources/Phases.antt =====
-- Every step moves each recording along its life, and what a stop answers in each phase.
use capture_room.Sources.Lives.{Reaches-Sound}
use capture_room.Prelude.{
  ◌≡◌, refl, sym, subst, Option, none, some, String, get, put, get-put, get-put_other, get-delete,
}
use capture_room.Sources.{RecordingSession, ActiveSession, Reservation, SourceManager}
use capture_room.Sources.Recordings.{start_with}
use capture_room.Sources.Ends.{
  StopOutcome, join, not_found, take_session, take_entry, stop_with, begin_stop_recording,
}
use capture_room.Sources.Places.{
  at, Places, places, IsAlone, Turns-Moves, Phase, phase, Moves, absent, starting, recording,
  stopping, remains, enters, at_id,
}
use capture_room.Sources.Turning.{
  put_session-Turned, begin_stop_recording-Turned, finish_stop-Turned, publish-Turned,
  report_leg_failure-Turned, disconnect-Turned,
}
use capture_room.Sources.Marking.{
  finish_start_recording-Settled, mark_session-Turned, update_active_marker-Turned,
  delete_active_marker-Turned,
}
use capture_room.Sources.Begin.{begin_start_recording-elim}
use capture_room.Sources.Runs.{
  World, after, Step, connects, disconnects, begins, finishes, runs, marks, updates, deletes,
  reports, stops, publishes, closes, Reaches, Sound,
}

reserved-starting :
    (m : SourceManager) (id : String) (r : Reservation)
    → places id m ≡ at none none none
    → phase (at (get id m.sessions) (get id (put id r m.reserved)) (get id m.stopping)) ≡ starting
reserved-starting m id r fresh = rw (get-put id r m.reserved) (by_session (get id m.sessions) (cc))
  where
    by_session :
        (o : Option ActiveSession) → o ≡ none → phase (at o (some r) (get id m.stopping)) ≡ starting
    by_session none e = refl
    by_session (some s) e = absurd (cc)

-- Over a step from a reachable state, every recording stays where it is in its life or moves along it:
-- from absent to starting, from there to recording or back to absent, from recording to stopping,
-- and from stopping to absent.
pub Step-Moves :
    (w v : World)
    → Reaches w
    → Step w v
    → (i : String) → Moves (phase (places i w.manager)) (phase (places i v.manager))
Step-Moves w v r step i = by_step v step
  where
    h : Sound w
    h = Reaches-Sound w r

    by_step :
        (v : World) → Step w v → Moves (phase (places i w.manager)) (phase (places i v.manager))
    by_step v (connects source monitor) = remains
    by_step v (disconnects source) = Turns-Moves (disconnect-Turned source w.manager i) (h.alone i)
    by_step v (begins req paths offset env fresh) =
        begin_start_recording-elim
          (λ b. Moves (phase (places i w.manager)) (phase (places i (after b w).manager))) req paths
          offset env w.manager (λ e. remains)
          (λ c t o monitor a.
            at_id
              (λ i. Moves (phase (places i w.manager)) (
                phase
                  (places i (after (start_with c t o monitor req paths env w.manager) w).manager)))
              env.uuid i
              (subst
                (λ (p : Places). Moves (phase p) (
                  phase (
                    places env.uuid
                      (after (start_with c t o monitor req paths env w.manager) w).manager)))
                (sym fresh)
                (rw
                  (reserved-starting w.manager env.uuid
                    (record { source_id = req.source_id; paths = paths }) fresh)
                  enters))
              (λ d.
                rw
                  (get-put_other env.uuid i (record { source_id = req.source_id; paths = paths })
                    w.manager.reserved d)
                  remains))
    by_step v (finishes id start started g) =
        Turns-Moves
          (finish_start_recording-Settled started start w.manager (h.flying id start g).1 i)
          (h.alone i)
    by_step v (runs id s legs g) =
        Turns-Moves (put_session-Turned id s (record s { legs = legs }) w.manager g refl refl i)
          (h.alone i)
    by_step v (marks now uuid id req) =
        Turns-Moves (mark_session-Turned now uuid id req w.manager i) (h.alone i)
    by_step v (updates u marker_id id) =
        Turns-Moves (update_active_marker-Turned u marker_id id w.manager i) (h.alone i)
    by_step v (deletes marker_id id) =
        Turns-Moves (delete_active_marker-Turned marker_id id w.manager i) (h.alone i)
    by_step v (reports f) = Turns-Moves (report_leg_failure-Turned f w.manager i) (h.alone i)
    by_step v (stops id) = Turns-Moves (begin_stop_recording-Turned id w.manager i) (h.alone i)
    by_step v (publishes dto) = Turns-Moves (publish-Turned dto w.manager i) (h.alone i)
    by_step v (closes id) = Turns-Moves (finish_stop-Turned id w.manager i) (h.alone i)

-- What a request to stop answers in each phase.
abbrev pub Answers : Phase → StopOutcome → Type 0
Answers recording (StopOutcome.start job) = Unit
Answers stopping (join result) = Unit
Answers absent not_found = Unit
Answers starting not_found = Unit
Answers _ _ = ⊥

-- In a reachable state a request to stop hands out the work of a stop exactly when the recording is
-- recording, joins the stop in flight exactly when one is, and finds nothing otherwise; and after it
-- the recording is not recording.
pub begin_stop_recording-Answers :
    (w : World)
    → Reaches w
    → (id : String)
    → Answers (phase (places id w.manager)) (begin_stop_recording id w.manager).1
      × (get id (begin_stop_recording id w.manager).0.sessions ≡ none)
unfolding begin_stop_recording take_session
begin_stop_recording-Answers w r id =
    by_places (get id w.manager.sessions) (get id w.manager.reserved) (get id w.manager.stopping)
      refl ((Reaches-Sound w r).alone id)
  where
    m : SourceManager
    m = w.manager

    by_places :
        (s : Option ActiveSession) (r : Option Reservation) (c : Option (Option RecordingSession))
        → get id m.sessions ≡ s
        → IsAlone (at s r c)
        → Answers (phase (at s r c)) (stop_with (take_entry s id m).1 c (take_entry s id m).0).1
          × (get id (stop_with (take_entry s id m).1 c (take_entry s id m).0).0.sessions ≡ none)
    by_places (some s) none none g h = (tt, get-delete id m.sessions)
    by_places none (some r) none g h = (tt, g)
    by_places none none (some x) g h = (tt, g)
    by_places none none none g h = (tt, g)
    by_places (some s) (some r) c g h = absurd h
    by_places (some s) none (some x) g h = absurd h
    by_places none (some r) (some x) g h = absurd h
