-- ===== src/Replay/Clip.antt =====
-- node/src/pipeline/replay.rs: `Index::clip`, `Index::after` and `Hold::newer`.
pub mod Stretch
pub mod Registers
pub mod Cover
pub mod Fault
mod Examples
use capture_room.Prelude.{
  ℕ, zero, suc, ◌+◌, ◌-◌, min, max, Bool, true, false, Option, none, some, List, [], ◌∷◌, ◌++◌, map,
  String, str_eq, ltb, leb, if◌then◌else◌, length, get_elem?, take, drop, sub?, ◌>>=◌,
}
use capture_room.Replay.{ReplayCodec, Segment, Index, follows_on}

pub record ReplaySpan : Type 0 where
  pub files : List String
  pub codec : ReplayCodec
  pub base : ℕ
  pub from : ℕ
  pub to : ℕ
  pub hold : Option ℕ

pub data Refusal : Type 0 where
  empty nothing_recent nothing_between : Refusal

pub data Outcome : Type 0 where
  made : ReplaySpan → Index → Outcome
  refused : Refusal → Outcome

abbrev pub position : (Segment → Bool) → List Segment → Option ℕ
position p [] = none
position p (s ∷ ss) =
    let rest = position p ss in
    if p s then some 0 else elim rest [ none ↦ none | some i ↦ some (suc i) ]

-- Whether segment `i + 1` is there and follows on segment `i`.
abbrev pub joins : List Segment → ℕ → Bool
joins [] i = false
joins (a ∷ []) i = false
joins (a ∷ b ∷ ss) zero = follows_on a b
joins (a ∷ b ∷ ss) (suc i) = joins (b ∷ ss) i

-- `while first > 0 && …`.
abbrev pub rewind : List Segment → ℕ → ℕ
rewind segments zero = zero
rewind segments (suc i) = let rest = rewind segments i in if joins segments i then rest else suc i

-- `while last + 1 < len && …`, for at most so many rounds.
abbrev pub advance : ℕ → List Segment → ℕ → ℕ
advance zero segments i = i
advance (suc fuel) segments i =
    let rest = advance fuel segments (suc i) in if joins segments i then rest else i

-- `(i..i + count).find(…)`.
abbrev pub find_within : ℕ → ℕ → (Segment → Bool) → List Segment → Option ℕ
find_within zero i p segments = none
find_within (suc count) i p segments =
    let rest = find_within count (suc i) p segments in
    elim (get_elem? segments i) [ none ↦ none | some s ↦ if p s then some i else rest ]

abbrev pub or_else : Option ℕ → ℕ → ℕ
or_else none n = n
or_else (some m) n = m

-- `Ord::clamp`, which panics on an empty range.
abbrev pub clamp? : ℕ → ℕ → ℕ → Option ℕ
clamp? x lo hi = if leb lo hi then some (min (max x lo) hi) else none

abbrev pub cut_from : Index → ReplayCodec → ℕ → ℕ → Segment → Option ℕ → Option ℕ → Option Outcome
cut_from i codec begin stop first (some from) (some to) = some (
    made
      (record {
        files = map (λ (s : Segment). s.path) (take (suc stop - begin) (drop begin i.segments));
        codec = codec;
        base = first.start;
        from = from;
        to = to;
        hold = some i.next_hold;
      })
      (record i {
        next_hold = i.next_hold + 1;
        holds = i.holds ++ (i.next_hold, first.start) ∷ [];
      }))
cut_from i codec begin stop first _ _ = none

-- `from - base` and `to - base` panic below 0.
abbrev pub cut : Index → ReplayCodec → ℕ → ℕ → ℕ → ℕ → Option Segment → Option Outcome
cut i codec from to begin stop none = none
cut i codec from to begin stop (some first) =
    cut_from i codec begin stop first (sub? from first.start) (sub? to first.start)

-- From the file that holds `from`, to the one that holds `to`.
abbrev pub begin_at : List Segment → ℕ → ℕ → ℕ → ℕ
begin_at segments first last from =
    or_else (find_within (suc last - first) first (λ s. ltb from s.end) segments) first

abbrev pub stop_at : List Segment → ℕ → ℕ → ℕ → ℕ
stop_at segments begin last to =
    or_else (find_within (suc last - begin) begin (λ s. leb to s.end) segments) last

abbrev pub between : Index → ReplayCodec → ℕ → ℕ → ℕ → Option ℕ → Option Outcome
between i codec first last from none = none
between i codec first last from (some to) =
    let begin = begin_at i.segments first last from in
    if leb to from
    then some (refused nothing_between)
    else cut i codec from to begin (stop_at i.segments begin last to) (get_elem? i.segments begin)

abbrev pub from_there : Index → ReplayCodec → ℕ → ℕ → ℕ → Option ℕ → Option ℕ → Option Outcome
from_there i codec first last newest to none = none
from_there i codec first last newest to (some from) =
    between i codec first last from (clamp? (or_else to newest) from newest)

-- Within the stretch from `first` to `last`.
abbrev pub choose :
    Index → ReplayCodec → ℕ → ℕ → ℕ → Option ℕ → Option Segment → Option Segment → Option Outcome
choose i codec first last from to (some a) (some b) =
    from_there i codec first last b.end to (clamp? from a.start b.end)
choose i codec first last from to _ _ = none

abbrev pub locate : Index → ReplayCodec → ℕ → Option ℕ → Option ℕ → Option Outcome
locate i codec from to none = some (refused nothing_recent)
locate i codec from to (some at) =
    let first = rewind i.segments at in
    let last = advance (length i.segments) i.segments first in
    choose i codec first last from to (get_elem? i.segments first) (get_elem? i.segments last)

abbrev pub clip_in : Option ReplayCodec → Index → ℕ → Option ℕ → Option Outcome
clip_in none i from to = some (refused empty)
clip_in (some codec) i from to = locate i codec from to (position (λ s. ltb from s.end) i.segments)

-- `none` is a panic.
unfoldable pub clip : Index → ℕ → Option ℕ → Option Outcome
unfolding sub?
clip i from to = clip_in i.codec i from to

-- The paths after the first segment, up to a gap.
abbrev pub followers : List Segment → List String
followers [] = []
followers (a ∷ []) = []
followers (a ∷ b ∷ ss) = if follows_on a b then b.path ∷ followers (b ∷ ss) else []

-- `after`, which `Hold::newer` asks while the index lives.
unfoldable pub after : Index → String → Option (List String)
after i last =
    position (λ s. str_eq s.path last) i.segments >>= λ at. some (followers (drop at i.segments))
