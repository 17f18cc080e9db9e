-- ===== src/Sources/Begin.antt =====
-- The first step of a start: what it reserves is nobody else's.
use capture_room.Prelude.{
  ℕ, ◌≡◌, ◌≢◌, refl, sym, subst, inl, inr, Bool, true, false, ◌||◌, Option, none, some, List, [],
  ◌∷◌, String, str_eq, ◌==◌, any, get, contains, ℤ, Bool-cases, str_refl, str_eq→≡,
}
use capture_room.Sources.{
  MonitorPipeline, SourceManager, is_recording, records, reserves, ActiveSession, Reservation,
}
use capture_room.Sources.Recordings.{
  StartRecordingRequest, Surroundings, Begun, refused, StartError, start_with, start_free, start_on,
  begin_start_recording, occupied, is_taken, writes, takes, is_too_far, start_time,
}
use capture_room.Sources.Places.{at, places, Claim, claim, Disjoint}

-- What a start that is let through has met.
pub record Admitted (source : String) (paths : List String) (m : SourceManager) : Type 0 where
  pub idle : is_recording source m ≡ false
  pub free : (path : String) → contains path paths ≡ true → is_taken path m ≡ false

or_false : (a b : Bool) → (a || b) ≡ false → (a ≡ false) × (b ≡ false)
or_false true b e = absurd (cc)
or_false false b e = (refl, e)

occupied-free :
    (exists : String → Bool) (m : SourceManager) (paths : List String)
    → occupied exists m paths ≡ none
    → (path : String) → contains path paths ≡ true
    → is_taken path m ≡ false
occupied-free exists m [] e path h = absurd (cc)
occupied-free exists m (p ∷ paths) e path h = elim (Bool-cases (is_taken p m || exists p)) [
  | inl k ↦ absurd (by_test k e)
  | inr k ↦ elim (Bool-cases (str_eq p path)) [
    | inl l ↦
        subst (λ (p : String). is_taken p m ≡ false) (str_eq→≡ p path l)
          (or_false (is_taken p m) (exists p) k).0
    | inr l ↦ occupied-free exists m paths (rest k e) path (behind l h)
  ]
]
  where
    by_test : (is_taken p m || exists p) ≡ true → occupied exists m (p ∷ paths) ≡ none → ⊥
    by_test k = rw k (λ e. absurd (cc))

    rest :
        (is_taken p m || exists p) ≡ false
        → occupied exists m (p ∷ paths) ≡ none
        → occupied exists m paths ≡ none
    rest k = rw k (λ e. e)

    behind : str_eq p path ≡ false → contains path (p ∷ paths) ≡ true → contains path paths ≡ true
    behind l = rw l (λ h. h)

-- A property of a start's outcome, from its refusals and the start that is let through.
pub begin_start_recording-elim :
    (P : Begun → Type 0) (req : StartRecordingRequest) (paths : List String) (offset : Option ℤ)
    (env : Surroundings) (m : SourceManager)
    → ((e : StartError) → P (refused e))
    → ((c : Bool) (t : Option ℕ) (o : Option ℤ) (monitor : MonitorPipeline)
        → Admitted req.source_id paths m
        → P (start_with c t o monitor req paths env m))
    → P (begin_start_recording req paths offset env m)
unfolding begin_start_recording
begin_start_recording-elim P req paths offset env m refusal start =
    elim (Bool-cases (is_recording req.source_id m)) [
      | inl e ↦ rw e (refusal _)
      | inr e ↦ rw e (by_monitor e (get req.source_id m.monitors))
    ]
  where
    by_path :
        is_recording req.source_id m ≡ false
        → (monitor : MonitorPipeline) (o : Option String) → occupied env.exists m paths ≡ o
        → P (start_free o monitor req paths offset env m)
    by_path e monitor (some path) f = refusal _
    by_path e monitor none f =
        elim (Bool-cases (
          is_too_far env.now (start_time (monitor.clock == m.clock) req.start_at m.clock_domain))) [
            | inl k ↦ rw k (refusal _)
            | inr k ↦ rw k (
                start _ _ _ monitor
                  (record { idle = e; free = occupied-free env.exists m paths f }))
          ]

    by_monitor :
        is_recording req.source_id m ≡ false
        → (o : Option MonitorPipeline) → P (start_on o req paths offset env m)
    by_monitor e none = refusal _
    by_monitor e (some monitor) = by_path e monitor (occupied env.exists m paths) refl

any-get :
    {V : Type 0} (f : String × V → Bool) (j : String) (l : List (String × V)) (v : V)
    → get j l ≡ some v
    → any f l ≡ false
    → f (j, v) ≡ false
any-get f j [] v g e = absurd (cc)
any-get f j ((k, w) ∷ l) v g e =
    let p = or_false (f (k, w)) (any f l) e in
    elim (Bool-cases (str_eq k j)) [
      | inl d ↦ found d p.0 g
      | inr d ↦ any-get f j l v (rest d g) p.1
    ]
  where
    found : str_eq k j ≡ true → f (k, w) ≡ false → get j ((k, w) ∷ l) ≡ some v → f (j, v) ≡ false
    found d = rw d (λ n g. subst (λ (k : String). f (k, v) ≡ false) (str_eq→≡ k j d) (same g n))
      where
        same : some w ≡ some v → f (k, w) ≡ false → f (k, v) ≡ false
        same g n = cc

    rest : str_eq k j ≡ false → get j ((k, w) ∷ l) ≡ some v → get j l ≡ some v
    rest d = rw d (λ g. g)

str_eq-false : (a b : String) → str_eq a b ≡ false → a ≢ b
str_eq-false a b e k =
    absurd (subst (λ (c : String). str_eq a c ≡ false → ⊥) k (rw (str_refl a) (λ e. absurd (cc))) e)

-- A claim leaves a source and some paths alone.
abbrev pub Spares : String → List String → Option Claim → Type 0
Spares source paths none = Unit
Spares source paths (some b) =
    (b.source_id ≢ source)
    × ((path : String) → contains path paths ≡ true → contains path b.paths ≡ false)

-- A new claim and those there are.
pub Admitted-Disjoint :
    (source : String) (paths : List String) (m : SourceManager) (j : String) (b : Claim)
    → Admitted source paths m
    → claim (places j m) ≡ some b
    → Spares source paths (some b)
unfolding is_recording
Admitted-Disjoint source paths m j b h e =
    by_places (get j m.sessions) (get j m.reserved) refl refl e
  where
    idle : (any (records source) m.sessions ≡ false) × (any (reserves source) m.reserved ≡ false)
    idle = or_false (any (records source) m.sessions) (any (reserves source) m.reserved) h.idle

    free :
        (path : String)
        → contains path paths ≡ true
        → (any (writes path) m.sessions ≡ false) × (any (takes path) m.reserved ≡ false)
    free path c =
        or_false (any (writes path) m.sessions) (any (takes path) m.reserved) (h.free path c)

    by_places :
        (s : Option ActiveSession) (r : Option Reservation)
        → get j m.sessions ≡ s
        → get j m.reserved ≡ r
        → claim (at s r (get j m.stopping)) ≡ some b
        → Spares source paths (some b)
    by_places (some s) r f g e = subst (Spares source paths) e (
      str_eq-false _ _ (any-get (records source) j m.sessions s f idle.0),
      λ path c. any-get (writes path) j m.sessions s f (free path c).0,
    )
    by_places none (some r) f g e = subst (Spares source paths) e (
      str_eq-false _ _ (any-get (reserves source) j m.reserved r g idle.1),
      λ path c. any-get (takes path) j m.reserved r g (free path c).1,
    )
    by_places none none f g e = absurd (cc)

contrary :
    (paths others : List String)
    → ((path : String) → contains path paths ≡ true → contains path others ≡ false)
    → (path : String) → contains path others ≡ true
    → contains path paths ≡ false
contrary paths others f path c = elim (Bool-cases (contains path paths)) [
  | inl e ↦ absurd (let g = f path e in cc)
  | inr e ↦ e
]

pub Spares-Disjoint :
    (source : String) (paths : List String) (b : Claim)
    → Spares source paths (some b)
    → Disjoint (record { source_id = source; paths = paths }) b
      × Disjoint b (record { source_id = source; paths = paths })
Spares-Disjoint source paths b h = ((λ e. h.0 (sym e), h.1), (h.0, contrary paths b.paths h.1))
