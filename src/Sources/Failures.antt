-- ===== src/Sources/Failures.antt =====
-- Legs that fail while their session records.
use capture_room.Prelude.{
  ℕ, ◌+◌, ◌<◌, ◌≡◌, refl, sym, subst, true, false, none, some, List, [], ◌∷◌, String, leb, length,
  All, get, put, arith, get-put, get-delete,
}
use capture_room.Sources.{RecordingLeg, ActiveSession, SourceManager, is_current}
use capture_room.Sources.Recordings.{RecordingStart, running, finish_start_recording}
use capture_room.Sources.Ends.{
  LegFailure, note_leg_failure, report_leg_failure, fail_leg, take_session,
}
use capture_room.Sources.Turning.{begin_stop_recording-0}

-- Failures as they are reported, one after the other.
abbrev pub report_all : List LegFailure → SourceManager → SourceManager
report_all [] m = m
report_all (f ∷ fs) m = report_all fs (report_leg_failure f m).0

abbrev pub AllOf : String → List LegFailure → Type 0
AllOf id fs = All (λ (f : LegFailure). f.session_id ≡ id) fs

-- The session records on, with these legs and this many failures.
abbrev pub Records : String → List RecordingLeg → ℕ → SourceManager → Type 0
Records id legs n m =
    (s : ActiveSession) × (get id m.sessions ≡ some s) × (s.legs ≡ legs) × (s.failed_legs ≡ n)

report-Records :
    (f : LegFailure) (legs : List RecordingLeg) (n : ℕ) (m : SourceManager)
    → Records f.session_id legs n m
    → n + 1 < length legs
    → Records f.session_id legs (n + 1) (report_leg_failure f m).0
unfolding report_leg_failure note_leg_failure
report-Records f legs n m (s, g, l, c) h =
    rw (g, few) (fail_leg f s, get-put f.session_id (fail_leg f s) m.sessions, l, rw c refl)
  where
    few : leb (length s.legs) (s.failed_legs + 1) ≡ false
    few = rw (l, c) (ground arith)

report-stops :
    (f : LegFailure) (legs : List RecordingLeg) (n : ℕ) (m : SourceManager)
    → Records f.session_id legs n m
    → n + 1 ≡ length legs
    → get f.session_id (report_leg_failure f m).0.sessions ≡ none
unfolding report_leg_failure note_leg_failure take_session
report-stops f legs n m (s, g, l, c) h =
    rw
      (
        g,
        all,
        begin_stop_recording-0 f.session_id failing,
        get-put f.session_id (fail_leg f s) m.sessions,
      )
      (get-delete f.session_id (put f.session_id (fail_leg f s) m.sessions))
  where
    failing : SourceManager
    failing = record m { sessions = put f.session_id (fail_leg f s) m.sessions }

    all : leb (length s.legs) (s.failed_legs + 1) ≡ true
    all = rw (l, c) (ground arith)

reports-Records :
    (fs : List LegFailure) (id : String) (legs : List RecordingLeg) (n : ℕ) (m : SourceManager)
    → AllOf id fs
    → Records id legs n m
    → n + length fs < length legs
    → Records id legs (n + length fs) (report_all fs m)
reports-Records [] id legs n m a r h = subst (λ n. Records id legs n m) (omega arith) r
reports-Records (f ∷ fs) id legs n m a r h =
    subst (λ k. Records id legs k (report_all fs (report_leg_failure f m).0)) (omega arith)
      (reports-Records fs id legs (n + 1) (report_leg_failure f m).0 a.1
        (subst (λ i. Records i legs (n + 1) (report_leg_failure f m).0) a.0
          (report-Records f legs n m (subst (λ i. Records i legs n m) (sym a.0) r)
            (omega (arith, h))))
        (omega (arith, h)))

reports-Records_none :
    (fs : List LegFailure) (id : String) (legs : List RecordingLeg) (m : SourceManager)
    → AllOf id fs
    → Records id legs 0 m
    → length fs + 1 ≡ length legs
    → Records id legs (length fs) (report_all fs m)
reports-Records_none fs id legs m a r h =
    subst (λ k. Records id legs k (report_all fs m)) (omega arith)
      (reports-Records fs id legs 0 m a r (omega (arith, h)))

-- A session that records with no failed leg keeps recording while fewer failures of it are reported than
-- it has legs, and the report that makes them as many takes it out of the recording sessions.
pub report_all-stops :
    (id : String) (legs : List RecordingLeg) (m : SourceManager) (fs : List LegFailure)
    (f : LegFailure)
    → Records id legs 0 m
    → AllOf id fs
    → f.session_id ≡ id
    → length fs + 1 ≡ length legs
    → Records id legs (length fs) (report_all fs m)
      × (get id (report_leg_failure f (report_all fs m)).0.sessions ≡ none)
report_all-stops id legs m fs f r a e h =
    let t = reports-Records_none fs id legs m a r h in
    (
      t,
      subst (λ i. get i (report_leg_failure f (report_all fs m)).0.sessions ≡ none) e
          (report-stops f legs (length fs) (report_all fs m)
            (subst (λ i. Records i legs (length fs) (report_all fs m)) (sym e) t) h),
    )

report-starting :
    (f : LegFailure) (m : SourceManager)
    → get f.session_id m.sessions ≡ none
    → (report_leg_failure f m).0 ≡ m
unfolding report_leg_failure note_leg_failure
report-starting f m g = rw g refl

finish-Records :
    (legs : List RecordingLeg) (start : RecordingStart) (m : SourceManager)
    → is_current start.dto.source_id start.monitor m ≡ true
    → Records start.dto.id legs 0 (finish_start_recording (running legs) start m).0
unfolding finish_start_recording is_current
finish-Records legs start m e = rw e (_, get-put start.dto.id _ m.sessions, refl, refl)

-- A leg's failure that is reported while its recording is starting changes nothing: once the
-- recording is added with its legs, failures of all of these but one leave it recording.
pub report-starting_lost :
    (legs : List RecordingLeg) (start : RecordingStart) (m : SourceManager) (f : LegFailure)
    (fs : List LegFailure)
    → get start.dto.id m.sessions ≡ none
    → is_current start.dto.source_id start.monitor m ≡ true
    → f.session_id ≡ start.dto.id
    → AllOf start.dto.id fs
    → length fs + 1 ≡ length legs
    → ((report_leg_failure f m).0 ≡ m)
      × Records start.dto.id legs
          (length fs)
          (report_all fs (finish_start_recording (running legs) start (report_leg_failure f m).0).0)
report-starting_lost legs start m f fs g c e a h =
    let same = report-starting f m (rw e g) in
    (
      same,
      rw same (
          reports-Records_none fs start.dto.id legs
            (finish_start_recording (running legs) start m).0 a (finish-Records legs start m c) h),
    )
