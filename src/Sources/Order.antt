-- ===== src/Sources/Order.antt =====
-- Markers: in time order, and within what the session has recorded.
use capture_room.Prelude.{
  ℕ, ◌+◌, ◌/◌, ◌≤◌, ◌<◌, ◌≡◌, refl, ◌⊎◌, inl, inr, Bool, true, false, ◌||◌, Option, none, some,
  List, [], ◌∷◌, String, ltb, leb, ◌*◌, ◌++◌, take, ap, subst, sym, str_eq, str_eq→≡, str_refl, All,
  All-mono, arith, get, Bool-cases, get-put, ltb→lt,
}
use capture_room.Sources.{
  ClockTime, SessionClock, Marker, RecordingSession, ActiveSession, MonitorPipeline, SourceManager,
  first_frame,
}
use capture_room.Sources.Markers.{
  MarkError, not_active, not_yet, out_of_range, MarkRequest, Marked, unmarked, marked, mark_at,
  mark_from, mark_entry, mark_session, mark_time, mark_leeway, insert_marker, new_marker,
  timecode_at, with_markers,
}

-- Each marker stands no later than those after it.
abbrev pub Rising : List Marker → Type 0
Rising [] = Unit
Rising (x ∷ xs) = All (λ (y : Marker). x.at_us ≤ y.at_us) xs × Rising xs

All-insert_marker :
    (P : Marker → Type 0) (m : Marker) (xs : List Marker)
    → P m
    → All P xs
    → All P (insert_marker m xs)
All-insert_marker P m [] p h = (p, tt)
All-insert_marker P m (x ∷ xs) p h = elim (Bool-cases (leb x.at_us m.at_us)) [
  | inl e ↦ rw e (h.0, All-insert_marker P m xs p h.1)
  | inr e ↦ rw e (p, h)
]

pub insert_marker-Rising : (m : Marker) (xs : List Marker) → Rising xs → Rising (insert_marker m xs)
insert_marker-Rising m [] h = (tt, tt)
insert_marker-Rising m (x ∷ xs) h = elim (Bool-cases (leb x.at_us m.at_us)) [
  | inl e ↦ rw e (
    All-insert_marker (λ y. x.at_us ≤ y.at_us) m xs (ground arith) h.0,
    insert_marker-Rising m xs h.1,
  )
  | inr e ↦ rw e (((ground arith), All-mono (λ y (k : x.at_us ≤ y.at_us). below y e k) xs h.0), h)
]
  where
    below : (y : Marker) → leb x.at_us m.at_us ≡ false → x.at_us ≤ y.at_us → m.at_us ≤ y.at_us
    below y e k = ground arith

-- The time that a request marks: the one that it gives, in nanoseconds, if that is on the session's own clock, and otherwise
-- the time now.
pub data Marks (now : ℕ) : Option ClockTime → Option SessionClock → ℕ → Type 0 where
  unasked : (clock : Option SessionClock) → Marks now none clock now
  clockless : (asked : ClockTime) → Marks now (some asked) none now
  on_another :
      (asked : ClockTime) (clock : SessionClock)
      → ¬ (asked.domain ≡ clock.domain)
      → Marks now (some asked) (some clock) now
  on_own :
      (asked : ClockTime) (clock : SessionClock)
      → asked.domain ≡ clock.domain
      → Marks now (some asked) (some clock) (asked.time_us * 1000)

mark_time-Marks :
    (now : ℕ) (asked : Option ClockTime) (clock : Option SessionClock)
    → Marks now asked clock (mark_time asked clock now)
mark_time-Marks now none clock = unasked clock
mark_time-Marks now (some asked) none = clockless asked
mark_time-Marks now (some asked) (some clock) =
    elim (Bool-cases (str_eq asked.domain clock.domain)) [
      | inl e ↦ rw e (on_own asked clock (str_eq→≡ asked.domain clock.domain e))
      | inr e ↦ rw e (on_another asked clock (apart e))
    ]
  where
    apart : str_eq asked.domain clock.domain ≡ false → ¬ (asked.domain ≡ clock.domain)
    apart e same = ground (
      arith,
      e,
      subst (λ (d : String). str_eq d clock.domain ≡ true) (sym same) (str_refl clock.domain),
    )

-- A new marker stands after the ones that are not later, and before the first that is.
pub record Placed (m : Marker) (before after : List Marker) : Type 0 where
  pub earlier : List Marker
  pub later : List Marker
  pub old : before ≡ earlier ++ later
  pub new : after ≡ earlier ++ m ∷ later
  pub passed : All (λ (x : Marker). x.at_us ≤ m.at_us) earlier
  pub next : All (λ (x : Marker). m.at_us < x.at_us) (take 1 later)

insert_marker-Placed : (m : Marker) (xs : List Marker) → Placed m xs (insert_marker m xs)
insert_marker-Placed m [] = record {
  earlier = [];
  later = [];
  old = refl;
  new = refl;
  passed = tt;
  next = tt;
}
insert_marker-Placed m (x ∷ xs) = elim (Bool-cases (leb x.at_us m.at_us)) [
  | inl e ↦
      let k = insert_marker-Placed m xs in
      rw e (record {
        earlier = x ∷ k.earlier;
        later = k.later;
        old = ap (λ (ys : List Marker). x ∷ ys) k.old;
        new = ap (λ (ys : List Marker). x ∷ ys) k.new;
        passed = (ground (arith, e), k.passed);
        next = k.next;
      })
  | inr e ↦ rw e (record {
    earlier = [];
    later = x ∷ xs;
    old = refl;
    new = refl;
    passed = tt;
    next = (ground (arith, e), tt);
  })
]

-- What a request to mark answers, by the session, its monitor and the time.
abbrev pub Explains :
    Option ActiveSession → Option ℕ → MarkRequest → SourceManager → MarkError → Type 0
Explains none now req m e = e ≡ not_active
Explains (some s) now req m not_active = get s.dto.source_id m.monitors ≡ none
Explains (some s) now req m not_yet = (now ≡ none) ⊎ (first_frame s.legs ≡ none)
Explains (some s) now req m out_of_range =
    (first : ℕ) × (time : ℕ) × (at : ℕ) × (first_frame s.legs ≡ some first)
    × (now ≡ some time)
    × Marks time req.at s.dto.clock at
    × ((at < first) ⊎ (time + 500_000_000 < at))

pub record Landed (s : ActiveSession) (now : Option ℕ) (id : String) (req : MarkRequest)
    (dto : RecordingSession) (marker : Marker) (m : SourceManager) : Type 0 where
  pub first : ℕ
  pub time : ℕ
  pub at : ℕ
  pub started : first_frame s.legs ≡ some first
  pub known : now ≡ some time
  pub marks : Marks time req.at s.dto.clock at
  pub since : first ≤ at
  pub until : at ≤ time + 500_000_000
  pub stamped : marker.at_us ≡ at / 1000
  pub pressed : marker.press_id ≡ req.press_id
  pub placed : Placed marker s.dto.markers dto.markers
  pub stored : get id m.sessions ≡ some (with_markers dto.markers s)
  pub sorted : Rising s.dto.markers → Rising dto.markers

abbrev pub Lands :
    Option ActiveSession
    → Option ℕ
    → String
    → MarkRequest
    → RecordingSession
    → Marker
    → SourceManager
    → Type 0
Lands none now id req dto marker m = ⊥
Lands (some s) now id req dto marker m = Landed s now id req dto marker m

abbrev pub MarksRight :
    Option ActiveSession → Option ℕ → String → MarkRequest → SourceManager → Marked → Type 0
MarksRight s now id req m (unmarked e) = Explains s now req m e
MarksRight s now id req m (marked dto marker n) = Lands s now id req dto marker n

or_cases : (a b : Bool) → (a || b) ≡ true → (a ≡ true) ⊎ (b ≡ true)
or_cases true b e = inl refl
or_cases false b e = inr e

in_range :
    (first time at : ℕ)
    → (ltb at first || ltb (time + mark_leeway) at) ≡ false
    → (first ≤ at) × (at ≤ time + mark_leeway)
in_range first time at e = ground arith

-- A request to mark a session marks the time that it gives if that is on the session's clock, and otherwise the time now. It is refused as
-- not active only without the session or its monitor, as too
-- early only without a time or a first frame, and as out of range only if what it marks is before the first frame or
-- more than half a second ahead; and otherwise the time lies within that range and is the new marker's, which
-- stands after the session's markers that are not later and before the first that is, as the session keeps them; markers in time order stay so.
pub mark_session-MarksRight :
    (now : Option ℕ) (uuid id : String) (req : MarkRequest) (m : SourceManager)
    → MarksRight (get id m.sessions) now id req m (mark_session now uuid id req m)
unfolding mark_session
mark_session-MarksRight now uuid id req m = by_entry (get id m.sessions)
  where
    by_range :
        (s : ActiveSession) (first time : ℕ)
        → first_frame s.legs ≡ some first
        → MarksRight
            (some s)
            (some time)
            id
            req
            m
            (mark_from (some first) time (mark_time req.at s.dto.clock time) uuid id req s m)
    by_range s first time f =
        let at = mark_time req.at s.dto.clock time in
        elim (Bool-cases (ltb at first || ltb (time + mark_leeway) at)) [
          | inl e ↦
              rw e (first, time, at, f, refl, mark_time-Marks time req.at s.dto.clock, beyond at e)
          | inr e ↦
              let r = in_range first time at e in
              let marker = new_marker uuid req at (timecode_at s.legs at) in
              rw e (record {
                first = first;
                time = time;
                at = at;
                started = f;
                known = refl;
                marks = mark_time-Marks time req.at s.dto.clock;
                since = r.0;
                until = r.1;
                stamped = refl;
                pressed = refl;
                placed = insert_marker-Placed marker s.dto.markers;
                stored =
                    get-put id (with_markers (insert_marker marker s.dto.markers) s) m.sessions;
                sorted = insert_marker-Rising marker s.dto.markers;
              })
        ]
      where
        beyond :
            (at : ℕ)
            → (ltb at first || ltb (time + mark_leeway) at) ≡ true
            → (at < first) ⊎ (time + mark_leeway < at)
        beyond at e = elim (or_cases _ _ e) [
          | inl k ↦ inl (ltb→lt at first k)
          | inr k ↦ inr (ltb→lt (time + mark_leeway) at k)
        ]

    by_first :
        (s : ActiveSession) (o : Option ℕ) (time : ℕ)
        → first_frame s.legs ≡ o
        → MarksRight
            (some s)
            (some time)
            id
            req
            m
            (mark_from o time (mark_time req.at s.dto.clock time) uuid id req s m)
    by_first s none time f = inr f
    by_first s (some first) time f = by_range s first time f

    by_monitor :
        (s : ActiveSession) (o : Option MonitorPipeline) (now : Option ℕ)
        → get s.dto.source_id m.monitors ≡ o
        → MarksRight (some s) now id req m (mark_at o now uuid id req s m)
    by_monitor s none now g = g
    by_monitor s (some monitor) none g = inl refl
    by_monitor s (some monitor) (some time) g = by_first s (first_frame s.legs) time refl

    by_entry :
        (o : Option ActiveSession) → MarksRight o now id req m (mark_entry o now uuid id req m)
    by_entry none = refl
    by_entry (some s) = by_monitor s (get s.dto.source_id m.monitors) now refl
