-- ===== src/Replay.antt =====
-- node/src/pipeline/replay.rs: the index of a replay buffer's finished segments, the clips made from it
-- and the holds that keep their files. Times are nanoseconds of the monitor's clock, without overflow.
-- An operation that deletes files returns their paths, in order, beside the new index.
pub mod Trim
pub mod Holds
pub mod Clip
mod Examples
use capture_room.Prelude.{
  ℕ, zero, suc, ◌+◌, ◌-◌, min, max, Bool, true, false, not, ◌&&◌, ◌||◌, Option, none, some, List,
  [], ◌∷◌, ◌++◌, map, String, str_eq, ltb, leb, ◌==◌, if◌then◌else◌, length, get_elem?, retain,
  head?,
}

pub data ReplayCodec : Type 0 where
  prores_proxy h264_intra mjpeg : ReplayCodec

pub record Segment : Type 0 where
  pub path : String
  pub start : ℕ
  pub end : ℕ
  pub bytes : ℕ

-- A clock is named by a number.
pub record Index : Type 0 where
  pub dir : String
  pub codec : Option ReplayCodec
  pub clock : Option ℕ
  pub segments : List Segment
  pub opening : Option (String × ℕ)
  pub next_number : ℕ
  pub written : ℕ
  pub keep : ℕ
  pub holds : List (ℕ × ℕ)
  pub next_hold : ℕ

-- 100 ms.
abbrev pub gap : ℕ
gap = 100_000_000

unfoldable pub create : String → ℕ → Index
create dir keep = record {
  dir = dir;
  codec = none;
  clock = none;
  segments = [];
  opening = none;
  next_number = 0;
  written = 0;
  keep = keep;
  holds = [];
  next_hold = 0;
}

abbrev pub newest : List Segment → Option ℕ
newest [] = none
newest (s ∷ []) = some s.end
newest (s ∷ t ∷ ss) = newest (t ∷ ss)

abbrev pub oldest_hold : List (ℕ × ℕ) → Option ℕ
oldest_hold [] = none
oldest_hold ((id, t) ∷ hs) = elim (oldest_hold hs) [ none ↦ some t | some u ↦ some (min t u) ]

abbrev pub is_held : Option ℕ → Segment → Bool
is_held none s = false
is_held (some t) s = ltb t s.end

-- The loop of `trim`: the segments left, and the files removed.
abbrev pub trim_loop : ℕ → Option ℕ → List Segment → List Segment × List String
trim_loop floor held [] = ([], [])
trim_loop floor held (s ∷ ss) =
    let rest = trim_loop floor held ss in
    if ltb floor s.end || is_held held s then (s ∷ ss, []) else (rest.0, s.path ∷ rest.1)

abbrev trim_to : Option ℕ → Index → Index × List String
trim_to none i = (i, [])
trim_to (some end) i =
    let r = trim_loop (end - i.keep) (oldest_hold i.holds) i.segments in
    (record i { segments = r.0 }, r.1)

unfoldable pub trim : Index → Index × List String
trim i = trim_to (newest i.segments) i

unfoldable pub set_keep : ℕ → Index → Index × List String
set_keep keep i = trim (record i { keep = keep })

abbrev span_to : Option Segment → Option ℕ → Option (ℕ × ℕ)
span_to (some first) (some end) = some (first.start, end)
span_to _ _ = none

unfoldable pub span : Index → Option (ℕ × ℕ)
span i = span_to (head? i.segments) (newest i.segments)

-- Neighbours with no gap between them.
abbrev pub follows_on : Segment → Segment → Bool
follows_on a b = leb b.start (a.end + gap)

abbrev breaks_of : List Segment → List ℕ
breaks_of [] = []
breaks_of (a ∷ []) = []
breaks_of (a ∷ b ∷ ss) = if follows_on a b then breaks_of (b ∷ ss) else b.start ∷ breaks_of (b ∷ ss)

unfoldable pub breaks : Index → List ℕ
breaks i = breaks_of i.segments

abbrev total : List Segment → ℕ
total [] = 0
total (s ∷ ss) = s.bytes + total ss

unfoldable pub bytes : Index → ℕ
bytes i = total i.segments

unfoldable pub forget : Index → Index
forget i = record i { segments = []; opening = none; codec = none; clock = none }

abbrev pub same_codec : ReplayCodec → ReplayCodec → Bool
same_codec prores_proxy prores_proxy = true
same_codec h264_intra h264_intra = true
same_codec mjpeg mjpeg = true
same_codec _ _ = false

abbrev pub runs_on : Option ReplayCodec → Option ℕ → ReplayCodec → ℕ → Bool
runs_on (some c) (some k) codec clock = same_codec c codec && k == clock
runs_on _ _ codec clock = false

-- Another codec or another clock: what was recorded can not be played on.
unfoldable pub is_stale : ReplayCodec → ℕ → Index → Bool
is_stale codec clock i = not (runs_on i.codec i.clock codec clock)

-- What starting a leg does to the index.
unfoldable pub start : ReplayCodec → ℕ → Index → Index
start codec clock i =
    let kept = if is_stale codec clock i then forget i else i in
    record kept { codec = some codec; clock = some clock }

unfoldable pub opened : String → ℕ → Index → Index × List String
opened path start i = (
  record i { opening = some (path, start) },
  elim i.opening [ none ↦ [] | some (stale, since) ↦ stale ∷ [] ],
)

-- `size` is the file's length on disk.
abbrev pub close_open : Option (String × ℕ) → String → ℕ → ℕ → Index → Index × List String
close_open none path end size i = (i, [])
close_open (some (open_path, start)) path end size i =
    if not (str_eq open_path path) || leb end start
    then (record i { opening = none }, path ∷ [])
    else trim (record i {
      opening = none;
      written = i.written + size;
      segments =
          i.segments ++ record { path = open_path; start = start; end = end; bytes = size } ∷ [];
    })

unfoldable pub closed : String → ℕ → ℕ → Index → Index × List String
unfolding trim
closed path end size i = close_open i.opening path end size i

-- `Drop for Hold`.
unfoldable pub release : ℕ → Index → Index × List String
unfolding trim
release id i = trim (record i { holds = retain (λ (h : ℕ × ℕ). not (h.0 == id)) i.holds })
