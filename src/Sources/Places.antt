-- ===== src/Sources/Places.antt =====
-- Where a recording is kept, how it moves between these places, and what it claims there.
use capture_room.Prelude.{
  ◌≡◌, ◌≢◌, refl, sym, subst, ◌∙◌, ◌⊎◌, inl, inr, Bool, true, false, Option, none, some, List,
  String, str_eq, get, contains, str_eq→≡, Bool-cases,
}
use capture_room.Sources.{RecordingSession, ActiveSession, Reservation, SourceManager}

pub data Places : Type 0 where
  at : Option ActiveSession → Option Reservation → Option (Option RecordingSession) → Places

abbrev pub places : String → SourceManager → Places
places i m = at (get i m.sessions) (get i m.reserved) (get i m.stopping)

-- What an operation other than a start's first step can do to one recording. Only the end of a start
-- (`true`) touches a reservation.
pub data Turns : Bool → Places → Places → Type 0 where
  stays : {b : Bool} {p : Places} → Turns b p p
  refreshes :
      {b : Bool} {s t : ActiveSession} {r : Option Reservation}
      {c : Option (Option RecordingSession)}
      → t.dto.source_id ≡ s.dto.source_id
      → t.dto.output_paths ≡ s.dto.output_paths
      → Turns b (at (some s) r c) (at (some t) r c)
  starts :
      {o : Option ActiveSession} {s : ActiveSession} {r : Reservation}
      {c : Option (Option RecordingSession)}
      → s.dto.source_id ≡ r.source_id
      → s.dto.output_paths ≡ r.paths
      → Turns true (at o (some r) c) (at (some s) none c)
  releases :
      {o : Option ActiveSession} {r : Option Reservation} {c : Option (Option RecordingSession)}
      → Turns true (at o r c) (at o none c)
  stops :
      {b : Bool} {s : ActiveSession} {r : Option Reservation} {c : Option (Option RecordingSession)}
      → Turns b (at (some s) r c) (at none r (some none))
  publishes :
      {b : Bool} {o : Option ActiveSession} {r : Option Reservation} {x y : Option RecordingSession}
      → Turns b (at o r (some x)) (at o r (some y))
  closes :
      {b : Bool} {o : Option ActiveSession} {r : Option Reservation}
      {c : Option (Option RecordingSession)}
      → Turns b (at o r c) (at o r none)

-- In one place at most.
abbrev pub IsAlone : Places → Type 0
IsAlone (at none none c) = Unit
IsAlone (at (some s) none none) = Unit
IsAlone (at none (some r) none) = Unit
IsAlone (at (some s) (some r) c) = ⊥
IsAlone (at (some s) none (some x)) = ⊥
IsAlone (at none (some r) (some x)) = ⊥

pub Turns-IsAlone : {b : Bool} {p q : Places} → Turns b p q → IsAlone p → IsAlone q
Turns-IsAlone stays h = h
Turns-IsAlone (refreshes {r = none} {c = none} e f) h = tt
Turns-IsAlone (refreshes {r = none} {c = some x} e f) h = h
Turns-IsAlone (refreshes {r = some r} e f) h = h
Turns-IsAlone (starts {o = none} {c = none} e f) h = tt
Turns-IsAlone (starts {o = none} {c = some x} e f) h = h
Turns-IsAlone (starts {o = some o} e f) h = absurd h
Turns-IsAlone (releases {o = none}) h = tt
Turns-IsAlone (releases {o = some s} {r = none} {c = c}) h = h
Turns-IsAlone (releases {o = some s} {r = some r} {c = c}) h = absurd h
Turns-IsAlone (stops {r = none}) h = tt
Turns-IsAlone (stops {r = some r}) h = absurd h
Turns-IsAlone (publishes {o = none} {r = none}) h = tt
Turns-IsAlone (publishes {o = some s} {r = none}) h = absurd h
Turns-IsAlone (publishes {o = none} {r = some r}) h = absurd h
Turns-IsAlone (publishes {o = some s} {r = some r}) h = absurd h
Turns-IsAlone (closes {o = none} {r = none}) h = tt
Turns-IsAlone (closes {o = some s} {r = none}) h = tt
Turns-IsAlone (closes {o = none} {r = some r}) h = tt
Turns-IsAlone (closes {o = some s} {r = some r}) h = h

-- The source and the paths that a recording has, from its start to its stop.
pub record Claim : Type 0 where
  pub source_id : String
  pub paths : List String

abbrev pub claim : Places → Option Claim
claim (at (some s) r c) = some (record { source_id = s.dto.source_id; paths = s.dto.output_paths })
claim (at none (some r) c) = some (record { source_id = r.source_id; paths = r.paths })
claim (at none none c) = none

abbrev pub Disjoint : Claim → Claim → Type 0
Disjoint a b =
    (a.source_id ≢ b.source_id)
    × ((path : String) → contains path a.paths ≡ true → contains path b.paths ≡ false)

-- The abstract life of a recording.
pub data Phase : Type 0 where
  absent starting recording stopping : Phase

pub data Moves : Phase → Phase → Type 0 where
  remains : {p : Phase} → Moves p p
  enters : Moves absent starting
  fails : Moves starting absent
  goes : Moves starting recording
  ends : Moves recording stopping
  leaves : Moves stopping absent

abbrev pub phase : Places → Phase
phase (at (some s) r c) = recording
phase (at none (some r) c) = starting
phase (at none none (some x)) = stopping
phase (at none none none) = absent

pub Turns-Moves : {b : Bool} {p q : Places} → Turns b p q → IsAlone p → Moves (phase p) (phase q)
Turns-Moves stays h = remains
Turns-Moves (refreshes e f) h = remains
Turns-Moves (starts {o = none} e f) h = goes
Turns-Moves (starts {o = some s} e f) h = remains
Turns-Moves (releases {o = some s}) h = remains
Turns-Moves (releases {o = none} {r = none}) h = remains
Turns-Moves (releases {o = none} {r = some r} {c = none}) h = fails
Turns-Moves (releases {o = none} {r = some r} {c = some x}) h = absurd h
Turns-Moves (stops {r = none}) h = ends
Turns-Moves (stops {r = some r}) h = absurd h
Turns-Moves (publishes {o = some s}) h = remains
Turns-Moves (publishes {o = none} {r = some r}) h = remains
Turns-Moves (publishes {o = none} {r = none}) h = remains
Turns-Moves (closes {o = some s}) h = remains
Turns-Moves (closes {o = none} {r = some r}) h = remains
Turns-Moves (closes {o = none} {r = none} {c = none}) h = remains
Turns-Moves (closes {o = none} {r = none} {c = some x}) h = leaves

Turns-claim :
    {b : Bool} {p q : Places} → Turns b p q → IsAlone p → (claim q ≡ claim p) ⊎ (claim q ≡ none)
Turns-claim stays h = inl refl
Turns-claim (refreshes e f) h = inl (rw (e, f) refl)
Turns-claim (starts {o = none} e f) h = inl (rw (e, f) refl)
Turns-claim (starts {o = some s} e f) h = absurd h
Turns-claim (releases {o = some s}) h = inl refl
Turns-claim (releases {o = none}) h = inr refl
Turns-claim (stops {r = none}) h = inr refl
Turns-claim (stops {r = some r}) h = absurd h
Turns-claim (publishes {o = some s}) h = inl refl
Turns-claim (publishes {o = none} {r = some r}) h = inl refl
Turns-claim (publishes {o = none} {r = none}) h = inl refl
Turns-claim (closes {o = some s}) h = inl refl
Turns-claim (closes {o = none} {r = some r}) h = inl refl
Turns-claim (closes {o = none} {r = none}) h = inl refl

-- Two recordings on the node, starting or recording, share neither source nor path.
abbrev pub Apart : SourceManager → Type 0
Apart m =
    (i j : String) (a b : Claim)
    → claim (places i m) ≡ some a
    → claim (places j m) ≡ some b
    → i ≢ j
    → Disjoint a b

abbrev pub Turned : SourceManager → SourceManager → Type 0
Turned m n = (i : String) → Turns false (places i m) (places i n)

abbrev pub Settled : SourceManager → SourceManager → Type 0
Settled m n = (i : String) → Turns true (places i m) (places i n)

pub Turned-Apart :
    (c : Bool) (m n : SourceManager)
    → ((i : String) → Turns c (places i m) (places i n))
    → ((i : String) → IsAlone (places i m))
    → Apart m
    → Apart n
Turned-Apart c m n t h apart i j a b e f d =
    by_claims (Turns-claim (t i) (h i)) (Turns-claim (t j) (h j))
  where
    by_claims :
        (claim (places i n) ≡ claim (places i m)) ⊎ (claim (places i n) ≡ none)
        → (claim (places j n) ≡ claim (places j m)) ⊎ (claim (places j n) ≡ none)
        → Disjoint a b
    by_claims (inl k) (inl l) = apart i j a b (sym k ∙ e) (sym l ∙ f) d
    by_claims (inl k) (inr l) = absurd (cc)
    by_claims (inr k) l = absurd (cc)

pub at_id : (P : String → Type 0) (id j : String) → P id → (str_eq id j ≡ false → P j) → P j
at_id P id j h k = elim (Bool-cases (str_eq id j)) [
  | inl e ↦ subst P (str_eq→≡ id j e) h
  | inr e ↦ k e
]

abbrev pub reservation : Places → Option Reservation
reservation (at o r c) = r

pub Turns-reservation : {p q : Places} → Turns false p q → reservation q ≡ reservation p
Turns-reservation stays = refl
Turns-reservation (refreshes e f) = refl
Turns-reservation stops = refl
Turns-reservation publishes = refl
Turns-reservation closes = refl
