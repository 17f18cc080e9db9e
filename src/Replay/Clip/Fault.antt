-- ===== src/Replay/Clip/Fault.antt =====
-- A clip asked for from a moment between two segments that count as gapless.
use capture_room.Prelude.{ℕ, ◌+◌, ◌≤◌, ◌<◌, ◌≡◌, none, some, [], ◌∷◌, arith}
use capture_room.Replay.{Index, Segment, ReplayCodec, gap}
use capture_room.Replay.Clip.{clip}

-- A clip from a moment after the end of one segment and before the start of the next, at most 100 ms
-- later, to any later moment, panics: the buffer's two segments count as one stretch, the clip's
-- first file is the later one, and the moment lies before that file's start.
pub clip_faults :
    (i : Index) (codec : ReplayCodec) (a b : Segment) (from to : ℕ)
    → i.codec ≡ some codec
    → i.segments ≡ a ∷ b ∷ []
    → a.start ≤ a.end
    → a.end ≤ from
    → from < b.start
    → b.start ≤ a.end + gap
    → b.start ≤ b.end
    → from < to
    → clip i from (some to) ≡ none
unfolding clip
clip_faults i codec a b from to c s oa h k near ob lt = rw (c, s) (ground arith)
