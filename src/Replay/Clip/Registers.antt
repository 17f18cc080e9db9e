-- ===== src/Replay/Clip/Registers.antt =====
-- What a clip leaves in the index.
use capture_room.Prelude.{
  ℕ, ◌+◌, ◌≡◌, refl, Option, none, some, [], ◌∷◌, ◌++◌, leb, ltb, Bool-cases, inl, inr, sub?,
  get_elem?, length,
}
use capture_room.Replay.{Index, Segment, ReplayCodec}
use capture_room.Replay.Clip.{
  Outcome, made, refused, clip, cut, cut_from, begin_at, stop_at, between, from_there, choose,
  locate, clip_in, rewind, advance, position, clamp?, or_else,
}

-- A clip that is made has a new hold, which it adds at its base, and changes nothing else.
abbrev pub Registers : Index → Option Outcome → Type 0
Registers i none = Unit {0}
Registers i (some (refused why)) = Unit {0}
Registers i (some (made span j)) =
    (record i { next_hold = i.next_hold + 1; holds = i.holds ++ (i.next_hold, span.base) ∷ [] } ≡ j)
    × (span.hold ≡ some i.next_hold)

cut-Registers :
    (i : Index) (codec : ReplayCodec) (from to begin stop : ℕ) (s : Option Segment)
    → Registers i (cut i codec from to begin stop s)
cut-Registers i codec from to begin stop none = tt
cut-Registers i codec from to begin stop (some first) =
    go (sub? from first.start) (sub? to first.start)
  where
    go : (f t : Option ℕ) → Registers i (cut_from i codec begin stop first f t)
    go none t = tt
    go (some f) none = tt
    go (some f) (some t) = (refl, refl)

between-Registers :
    (i : Index) (codec : ReplayCodec) (first last from : ℕ) (to : Option ℕ)
    → Registers i (between i codec first last from to)
between-Registers i codec first last from none = tt
between-Registers i codec first last from (some to) = elim (Bool-cases (leb to from)) [
  | inl e ↦ rw e tt
  | inr e ↦
      let begin = begin_at i.segments first last from in
      rw e (
        cut-Registers i codec from to begin (stop_at i.segments begin last to)
          (get_elem? i.segments begin))
]

from_there-Registers :
    (i : Index) (codec : ReplayCodec) (first last newest : ℕ) (to from : Option ℕ)
    → Registers i (from_there i codec first last newest to from)
from_there-Registers i codec first last newest to none = tt
from_there-Registers i codec first last newest to (some from) =
    between-Registers i codec first last from (clamp? (or_else to newest) from newest)

choose-Registers :
    (i : Index) (codec : ReplayCodec) (first last from : ℕ) (to : Option ℕ) (a b : Option Segment)
    → Registers i (choose i codec first last from to a b)
choose-Registers i codec first last from to none b = tt
choose-Registers i codec first last from to (some a) none = tt
choose-Registers i codec first last from to (some a) (some b) =
    from_there-Registers i codec first last b.end to (clamp? from a.start b.end)

locate-Registers :
    (i : Index) (codec : ReplayCodec) (from : ℕ) (to at : Option ℕ)
    → Registers i (locate i codec from to at)
locate-Registers i codec from to none = tt
locate-Registers i codec from to (some at) =
    let first = rewind i.segments at in
    let last = advance (length i.segments) i.segments first in
    choose-Registers i codec first last from to (get_elem? i.segments first)
      (get_elem? i.segments last)

clip_in-Registers :
    (codec : Option ReplayCodec) (i : Index) (from : ℕ) (to : Option ℕ)
    → Registers i (clip_in codec i from to)
clip_in-Registers none i from to = tt
clip_in-Registers (some codec) i from to =
    locate-Registers i codec from to (position (λ s. ltb from s.end) i.segments)

pub clip-Registers : (i : Index) (from : ℕ) (to : Option ℕ) → Registers i (clip i from to)
unfolding clip
clip-Registers i from to = clip_in-Registers i.codec i from to
