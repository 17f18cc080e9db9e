-- ===== src/Replay/Holds.antt =====
-- A clip's segments stay while its hold lives, whatever is recorded, clipped or let go meanwhile.
use capture_room.Prelude.{
  ℕ, zero, suc, false, refl, sym, ◌∙◌, map, take, drop, get_elem?, Has-append_right, ◌≤◌, ◌<◌, ◌≡◌,
  ◌≢◌, inl, inr, not, ◌||◌, Option, none, some, List, [], ◌∷◌, String, arith, All, Has, ltb,
  Option-cases, Bool-cases, Has-append_left, Has-retain, All-Has, ap, leb, str_eq, subst,
}
use capture_room.Replay.{
  ReplayCodec, is_stale, start, forget, Segment, Index, trim, trim_loop, newest, oldest_hold,
  is_held, set_keep, opened, closed, release, close_open,
}
use capture_room.Replay.Trim.{Spares, is_held-Spares}
use capture_room.Replay.Clip.{ReplaySpan, Outcome, made, refused, clip}
use capture_room.Replay.Clip.Cover.{clip-Covers}
use capture_room.Replay.Clip.Registers.{Registers, clip-Registers}

-- A hold of the index, and a segment of it that ends after the hold's base.
pub record Held (id base : ℕ) (s : Segment) (i : Index) : Type 0 where
  pub holding : Has (id, base) i.holds
  pub kept : Has s i.segments
  pub needed : base < s.end

trim_loop-Has :
    (floor id base : ℕ) (hs : List (ℕ × ℕ)) (s : Segment) (ss : List Segment)
    → Has (id, base) hs
    → base < s.end
    → Has s ss
    → Has s (trim_loop floor (oldest_hold hs) ss).0
trim_loop-Has floor id base hs s [] h lt m = absurd m
trim_loop-Has floor id base hs s (x ∷ ss) h lt m =
    elim (Bool-cases (ltb floor x.end || is_held (oldest_hold hs) x)) [
      | inl e ↦ rw e m
      | inr e ↦
          rw e
            (go (is_held-Spares x hs (ground arith)) m (trim_loop-Has floor id base hs s ss h lt))
    ]
  where
    go :
        All (Spares x) hs
        → Has s (x ∷ ss)
        → (Has s ss → Has s (trim_loop floor (oldest_hold hs) ss).0)
        → Has s (trim_loop floor (oldest_hold hs) ss).0
    go spares (inl e) rest =
        let over : x.end ≤ base = All-Has (Spares x) (id, base) hs spares h in
        let same : s.end ≡ x.end = ap (λ (t : Segment). t.end) e in absurd (omega arith)
    go spares (inr m) rest = rest m

trim-Held : (id base : ℕ) (s : Segment) (i : Index) → Held id base s i → Held id base s (trim i).0
unfolding trim
trim-Held id base s i h = elim (Option-cases (newest i.segments)) [
  | inl e ↦ rw e h
  | inr (end, e) ↦ rw e (record {
    holding = h.holding;
    kept = trim_loop-Has _ id base i.holds s i.segments h.holding h.needed h.kept;
    needed = h.needed;
  })
]

pub data Event : Type 0 where
  keeps : ℕ → Event
  opens : String → ℕ → Event
  closes : String → ℕ → ℕ → Event
  clips : ℕ → Option ℕ → Event
  releases : ℕ → Event
  -- The leg of a replay starts, or its folder is cleared.
  starts : ReplayCodec → ℕ → Event
  clears : Event

abbrev after_clip : Index → Option Outcome → Index
after_clip i none = i
after_clip i (some (refused why)) = i
after_clip i (some (made span j)) = j

-- The index after an event; a clip that panics changes nothing.
unfoldable pub step : Index → Event → Index
step i (keeps n) = (set_keep n i).0
step i (opens path start) = (opened path start i).0
step i (closes path end size) = (closed path end size i).0
step i (clips from to) = after_clip i (clip i from to)
step i (releases id) = (release id i).0
step i (starts codec clock) = start codec clock i
step i clears = forget i

unfoldable pub run : Index → List Event → Index
run i [] = i
run i (e ∷ es) = run (step i e) es

-- Events that neither let the hold go nor clear the buffer, one after the other.
abbrev pub Lets : ℕ → Index → Event → Type 0
Lets id i (releases other) = other ≢ id
Lets id i (starts codec clock) = is_stale codec clock i ≡ false
Lets id i clears = ⊥
Lets id i _ = Unit

abbrev pub LetsAll : ℕ → Index → List Event → Type 0
LetsAll id i [] = Unit
LetsAll id i (e ∷ es) = Lets id i e × LetsAll id (step i e) es

close_open-Held :
    (id base : ℕ) (s : Segment) (o : Option (String × ℕ)) (path : String) (end size : ℕ) (i : Index)
    → Held id base s i
    → Held id base s (close_open o path end size i).0
close_open-Held id base s none path end size i h = h
close_open-Held id base s (some (open_path, start)) path end size i h =
    elim (Bool-cases (not (str_eq open_path path) || leb end start)) [
      | inl e ↦ rw e (record { holding = h.holding; kept = h.kept; needed = h.needed })
      | inr e ↦ rw e (
          trim-Held id base s _ (record {
            holding = h.holding;
            kept = Has-append_left s i.segments _ h.kept;
            needed = h.needed;
          }))
    ]

after_clip-Held :
    (id base : ℕ) (s : Segment) (i : Index) (o : Option Outcome)
    → Registers i o
    → Held id base s i
    → Held id base s (after_clip i o)
after_clip-Held id base s i none g h = h
after_clip-Held id base s i (some (refused why)) g h = h
after_clip-Held id base s i (some (made span j)) g h = subst (Held id base s) g.0 (record {
  holding = Has-append_left (id, base) i.holds _ h.holding;
  kept = h.kept;
  needed = h.needed;
})

step-Held :
    (id base : ℕ) (s : Segment) (i : Index) (e : Event)
    → Lets id i e
    → Held id base s i
    → Held id base s (step i e)
unfolding step set_keep opened closed release start
step-Held id base s i (keeps n) ne h =
    trim-Held id base s _ (record { holding = h.holding; kept = h.kept; needed = h.needed })
step-Held id base s i (opens path start) ne h = record {
  holding = h.holding;
  kept = h.kept;
  needed = h.needed;
}
step-Held id base s i (closes path end size) ne h =
    close_open-Held id base s i.opening path end size i h
step-Held id base s i (clips from to) ne h =
    after_clip-Held id base s i (clip i from to) (clip-Registers i from to) h
step-Held id base s i (starts codec clock) ne h =
    rw ne (record { holding = h.holding; kept = h.kept; needed = h.needed })
step-Held id base s i clears ne h = absurd ne
step-Held id base s i (releases other) ne h = trim-Held id base s _ (record {
  holding = Has-retain _ (id, base) i.holds (ground (arith, ne)) h.holding;
  kept = h.kept;
  needed = h.needed;
})

-- While a hold is not let go, and the buffer is not cleared, each segment that ends after its base stays in the index; and the hold
-- stays too.
pub run_holding :
    (id base : ℕ) (s : Segment) (i : Index) (es : List Event)
    → LetsAll id i es
    → Held id base s i
    → Held id base s (run i es)
unfolding run
run_holding id base s i [] ne h = h
run_holding id base s i (e ∷ es) ne h =
    run_holding id base s (step i e) es ne.1 (step-Held id base s i e ne.0 h)

-- No segment ends after those that follow it.
abbrev pub Rising : List Segment → Type 0
Rising [] = Unit
Rising (s ∷ ss) = All (λ (t : Segment). s.end ≤ t.end) ss × Rising ss

-- A segment of the list with the path, not ending before `end`.
abbrev pub Filed : String → ℕ → List Segment → Type 0
Filed path end ss = (s : Segment) × (s.path ≡ path) × Has s ss × (end ≤ s.end)

taken-Has :
    (n : ℕ) (path : String) (ss : List Segment)
    → Has path (map (λ (s : Segment). s.path) (take n ss))
    → (s : Segment) × (s.path ≡ path) × Has s ss
taken-Has zero path ss h = absurd h
taken-Has (suc n) path [] h = absurd h
taken-Has (suc n) path (s ∷ ss) (inl e) = (s, sym e, inl refl)
taken-Has (suc n) path (s ∷ ss) (inr h) = let k = taken-Has n path ss h in (k.0, k.1, inr k.2)

dropped-Filed :
    (begin n : ℕ) (first : Segment) (path : String) (ss : List Segment)
    → get_elem? ss begin ≡ some first
    → Rising ss
    → Has path (map (λ (s : Segment). s.path) (take n (drop begin ss)))
    → Filed path first.end ss
dropped-Filed begin n first path [] g r h = absurd (cc)
dropped-Filed zero n first path (x ∷ ss) g r h = by_place (taken-Has n path (x ∷ ss) h)
  where
    by_place : ((s : Segment) × (s.path ≡ path) × Has s (x ∷ ss)) → Filed path first.end (x ∷ ss)
    by_place (s, e, inl k) = (s, e, inl k, same s k)
      where
        same : (s : Segment) → s ≡ x → first.end ≤ s.end
        same s k =
            let q : x ≡ first = cc in
            let w : s.end ≡ first.end = ap (λ (t : Segment). t.end) (k ∙ q) in omega arith
    by_place (s, e, inr k) = (s, e, inr k, later)
      where
        later : first.end ≤ s.end
        later =
            let q : x ≡ first = cc in
            let w : x.end ≡ first.end = ap (λ (t : Segment). t.end) q in
            let l : x.end ≤ s.end = All-Has (λ (t : Segment). x.end ≤ t.end) s ss r.0 k in
            omega arith
dropped-Filed (suc begin) n first path (x ∷ ss) g r h =
    let k = dropped-Filed begin n first path ss g r.1 h in (k.0, k.1, inr k.2, k.3)

-- A clip of a buffer in which no segment ends after a later one: through any sequence of recordings, clips, releases of other holds,
-- changes of the time kept and starts of the leg, while the clip's own hold is not let go and nothing clears the buffer (no start with another codec or clock), each of
-- its files is still one of a segment of the index.
pub run-Held :
    (i j : Index) (from : ℕ) (to : Option ℕ) (span : ReplaySpan) (hold : ℕ) (es : List Event)
    → clip i from to ≡ some (made span j)
    → span.hold ≡ some hold
    → Rising i.segments
    → LetsAll hold j es
    → (path : String) → Has path span.files
    → (s : Segment) × (s.path ≡ path) × Held hold span.base s (run j es)
run-Held i j from to span hold es e mine r ne path h =
    let c = clip-Covers i j from to span e in
    let registers = subst (Registers i) e (clip-Registers i from to) in
    let is_next : i.next_hold ≡ hold = cc in
    let f =
      dropped-Filed c.begin _ c.first path i.segments c.first_at r (subst (Has path) c.files h) in
    let needed : span.base < f.0.end = omega (arith, c.starts_in, f.3) in
    (
      f.0,
      f.1,
      run_holding hold span.base f.0 j es ne (
          subst (λ n. Held n span.base f.0 j) is_next
            (subst (Held i.next_hold span.base f.0) registers.0 (record {
              holding = Has-append_right (i.next_hold, span.base) i.holds _ (inl refl);
              kept = f.2;
              needed = needed;
            }))),
    )
