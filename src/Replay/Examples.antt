-- ===== src/Replay/Examples.antt =====
-- A buffer of three segments, and what is done with it.
use capture_room.Prelude.{ℕ, ◌≡◌, ◌+◌, ◌*◌, refl, inl, none, some, List, [], ◌∷◌, arith}
use capture_room.Replay.{
  Segment, Index, mjpeg, trim, span, breaks, release, set_keep, opened, closed, is_stale,
}
use capture_room.Replay.Trim.{Trims, trim-Trims}
use capture_room.Replay.Holds.{
  Held, Event, keeps, opens, closes, clips, releases, starts, step, run, LetsAll, Rising, run-Held,
}
use capture_room.Replay.Clip.{ReplaySpan, made, clip}

abbrev second : ℕ → ℕ → Segment
second n path_size = record {
  path = "f";
  start = n * 1_000_000_000;
  end = (n + 1) * 1_000_000_000;
  bytes = path_size;
}

abbrev three : Index
three = record {
  dir = "replay";
  codec = some mjpeg;
  clock = some 0;
  segments = second 0 10 ∷ second 1 20 ∷ second 5 30 ∷ [];
  opening = none;
  next_number = 3;
  written = 60;
  keep = 4_500_000_000;
  holds = [];
  next_hold = 1;
}

abbrev held_three : Index
held_three = record three { holds = (0, 1_000_000_000) ∷ [] }

span_test : span three ≡ some (0, 6_000_000_000)
unfolding span
span_test = refl

breaks_test : breaks three ≡ 5_000_000_000 ∷ []
unfolding breaks
breaks_test = refl

trim_test : trim three ≡ (record three { segments = second 1 20 ∷ second 5 30 ∷ [] }, "f" ∷ [])
unfolding trim
trim_test = refl

release_test : (release 0 (record held_three { keep = 0 })).1 ≡ "f" ∷ "f" ∷ "f" ∷ []
unfolding release
release_test = refl

trim-Trims_example :
    Trims 1_500_000_000 [] three.segments (trim three).0.segments (trim three).1
    × ((trim three).0 ≡ record three { segments = (trim three).0.segments })
trim-Trims_example = trim-Trims three 6_000_000_000 refl

-- The first two segments.
abbrev clipped : ReplaySpan
clipped = record {
  files = "f" ∷ "f" ∷ [];
  codec = mjpeg;
  base = 0;
  from = 500_000_000;
  to = 1_500_000_000;
  hold = some 1;
}

abbrev registered : Index
registered = record three { next_hold = 2; holds = (1, 0) ∷ [] }

clip_made : clip three 500_000_000 (some 1_500_000_000) ≡ some (made clipped registered)
unfolding clip
clip_made = refl

abbrev events : List Event
events =
    opens "g" 6_000_000_000
    ∷ closes "g" 7_000_000_000 40
    ∷ keeps 0
    ∷ releases 7
    ∷ clips 0 none
    ∷ starts mjpeg 0
    ∷ []

events-LetsAll : LetsAll 1 registered events
unfolding step set_keep opened closed release trim clip is_stale
events-LetsAll = (tt, (tt, (tt, ((ground arith), (tt, (refl, tt))))))

run-Held_example : (s : Segment) × (s.path ≡ "f") × Held 1 0 s (run registered events)
run-Held_example =
    run-Held three registered 500_000_000 (some 1_500_000_000) clipped 1 events clip_made refl
      rising events-LetsAll "f" (inl refl)
  where
    rising : Rising three.segments
    rising = ((omega arith, (omega arith, tt)), ((omega arith, tt), (tt, tt)))
