-- ===== src/Replay/Clip/Examples.antt =====
-- Clips of a buffer whose second and third segments have a small gap between them.
use capture_room.Prelude.{ℕ, ◌≡◌, refl, none, some, List, [], ◌∷◌, arith, String}
use capture_room.Replay.{Segment, Index, mjpeg}
use capture_room.Replay.Clip.{ReplaySpan, made, refused, nothing_recent, clip, after}
use capture_room.Replay.Clip.Cover.{Covers, clip-Covers}
use capture_room.Replay.Clip.Fault.{clip_faults}

abbrev file : String → ℕ → ℕ → Segment
file path start end = record { path = path; start = start; end = end; bytes = 1 }

abbrev buffer : List Segment → Index
buffer segments = record {
  dir = "replay";
  codec = some mjpeg;
  clock = some 0;
  segments = segments;
  opening = none;
  next_number = 3;
  written = 3;
  keep = 60_000_000_000;
  holds = [];
  next_hold = 4;
}

abbrev near : Index
near = buffer (
    file "a" 1_000_000_000 2_000_000_000
    ∷ file "b" 2_000_000_000 3_000_000_000
    ∷ file "c" 3_040_000_000 4_000_000_000
    ∷ file "d" 9_000_000_000 9_500_000_000
    ∷ [])

abbrev clipped : ReplaySpan
clipped = record {
  files = "b" ∷ "c" ∷ [];
  codec = mjpeg;
  base = 2_000_000_000;
  from = 500_000_000;
  to = 1_500_000_000;
  hold = some 4;
}

abbrev registered : Index
registered = record near { next_hold = 5; holds = (4, 2_000_000_000) ∷ [] }

clip_made : clip near 2_500_000_000 (some 3_500_000_000) ≡ some (made clipped registered)
unfolding clip
clip_made = refl

too_recent : clip near 9_500_000_000 none ≡ some (refused nothing_recent)
unfolding clip
too_recent = refl

plays_on : after near "b" ≡ some ("c" ∷ [])
unfolding after
plays_on = refl

clip-Covers_example : Covers near 2_500_000_000 (some 3_500_000_000) clipped
clip-Covers_example =
    clip-Covers near registered 2_500_000_000 (some 3_500_000_000) clipped clip_made

clip_faults_example :
    clip
      (buffer (file "b" 2_000_000_000 3_000_000_000 ∷ file "c" 3_040_000_000 4_000_000_000 ∷ []))
      3_010_000_000
      (some 3_500_000_000)
    ≡ none
clip_faults_example =
    clip_faults
      (buffer (file "b" 2_000_000_000 3_000_000_000 ∷ file "c" 3_040_000_000 4_000_000_000 ∷ []))
      mjpeg (file "b" 2_000_000_000 3_000_000_000) (file "c" 3_040_000_000 4_000_000_000)
      3_010_000_000 3_500_000_000 refl refl (omega arith) (omega arith) (omega arith) (omega arith)
      (omega arith) (omega arith)
