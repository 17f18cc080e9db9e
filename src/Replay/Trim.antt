-- ===== src/Replay/Trim.antt =====
-- What `trim` deletes.
use capture_room.Prelude.{
  ℕ, ◌-◌, ◌≤◌, ◌<◌, ◌≡◌, refl, ◌⊎◌, inl, inr, ap, true, false, ◌||◌, none, some, List, [], ◌∷◌,
  ◌++◌, map, String, arith, All, ltb, Bool-cases,
}
use capture_room.Replay.{Segment, Index, trim, trim_loop, newest, oldest_hold, is_held}

-- A hold on something that a segment shows or that comes later.
abbrev pub Needs : Segment → ℕ × ℕ → Type 0
Needs s h = h.1 < s.end

abbrev pub Spares : Segment → ℕ × ℕ → Type 0
Spares s h = s.end ≤ h.1

abbrev pub Some {ℓ} : {A : Type ℓ} → (A → Type 0) → List A → Type 0
Some P [] = ⊥
Some P (x ∷ xs) = P x ⊎ Some P xs

pub is_held-Spares :
    (s : Segment) (hs : List (ℕ × ℕ)) → is_held (oldest_hold hs) s ≡ false → All (Spares s) hs
is_held-Spares s [] e = tt
is_held-Spares s ((id, t) ∷ hs) e = ground (arith, is_held-Spares s hs)

pub is_held-Needs :
    (s : Segment) (hs : List (ℕ × ℕ)) → is_held (oldest_hold hs) s ≡ true → Some (Needs s) hs
is_held-Needs s [] e = ground arith
is_held-Needs s ((id, t) ∷ hs) e = ground (arith, is_held-Needs s hs)

-- The oldest segment left, if any, is within the time kept or needed by a hold.
abbrev pub Stays : ℕ → List (ℕ × ℕ) → List Segment → Type 0
Stays floor holds [] = Unit {0}
Stays floor holds (s ∷ ss) = (floor < s.end) ⊎ Some (Needs s) holds

-- The segments deleted are the first ones, each past its time and needed by no hold; the first one
-- left is not.
pub record Trims (floor : ℕ) (holds : List (ℕ × ℕ)) (ss left : List Segment) (files : List String)
    : Type 0 where
  pub gone : List Segment
  pub split : ss ≡ gone ++ left
  pub removed : files ≡ map (λ (s : Segment). s.path) gone
  pub past : All (λ (s : Segment). (s.end ≤ floor) × All (Spares s) holds) gone
  pub stops : Stays floor holds left

stays :
    (floor : ℕ) (holds : List (ℕ × ℕ)) (s : Segment)
    → (ltb floor s.end || is_held (oldest_hold holds) s) ≡ true
    → (floor < s.end) ⊎ Some (Needs s) holds
stays floor holds s e = elim (Bool-cases (ltb floor s.end)) [
  | inl t ↦ inl (ground arith)
  | inr t ↦ inr (is_held-Needs s holds (ground arith))
]

trim_loop-Trims :
    (floor : ℕ) (holds : List (ℕ × ℕ)) (ss : List Segment)
    → let r = trim_loop floor (oldest_hold holds) ss in Trims floor holds ss r.0 r.1
trim_loop-Trims floor holds [] = record {
  gone = [];
  split = refl;
  removed = refl;
  past = tt;
  stops = tt;
}
trim_loop-Trims floor holds (s ∷ ss) =
    let rest = trim_loop-Trims floor holds ss in
    elim (Bool-cases (ltb floor s.end || is_held (oldest_hold holds) s)) [
      | inl e ↦ rw e (record {
        gone = [];
        split = refl;
        removed = refl;
        past = tt;
        stops = stays floor holds s e;
      })
      | inr e ↦ rw e (record {
        gone = s ∷ rest.gone;
        split = ap (◌∷◌ s) rest.split;
        removed = ap (◌∷◌ s.path) rest.removed;
        past = ((ground arith, is_held-Spares s holds (ground arith)), rest.past);
        stops = rest.stops;
      })
    ]

-- `trim` deletes the files of exactly the longest run of oldest segments that ended at least the time
-- kept before the newest one's end, and that end no later than every hold; the rest of the index
-- stays as it was.
pub trim-Trims :
    (i : Index) (end : ℕ)
    → newest i.segments ≡ some end
    → Trims (end - i.keep) i.holds i.segments (trim i).0.segments (trim i).1
      × ((trim i).0 ≡ record i { segments = (trim i).0.segments })
unfolding trim
trim-Trims i end e = rw e (trim_loop-Trims (end - i.keep) i.holds i.segments, refl)

pub trim-empty : (i : Index) → newest i.segments ≡ none → trim i ≡ (i, [])
unfolding trim
trim-empty i e = rw e
