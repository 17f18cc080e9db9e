-- ===== src/Lanes/Examples.antt =====
-- A lane with a frame queued from 1 s to 1.04 s.
use capture_room.Prelude.{ℕ, Option, ◌+◌, ◌≡◌, refl, false, none, some, List, [], ◌∷◌, arith, sub?}
use capture_room.Lanes.{
  Lane, Program, Sample, Prepared, program_pts, prepare, commit_any, push_still, push, lead,
  next_slot, or_zero, is_gap, follow_on_base,
}
use capture_room.Lanes.Order.{Act, pushes, resumes, stills, AloneAll, queued, Rising, queued-Rising}
use capture_room.Lanes.FollowOn.{push-follow_on_base}

abbrev busy : Lane
busy = record { src = some 1; last = some (1_000_000_000, 1_040_000_000) }

abbrev at_900 : Program
at_900 = record { now = some 900_000_000; base_time = some 5_000_000_000 }

abbrev first_frame : Sample
first_frame = record { running = some 3_000_000_000; duration = some 40_000_000 }

abbrev acts : List Act
acts =
    pushes at_900 first_frame none
    ∷ stills at_900 2_000_000_000
    ∷ pushes at_900 first_frame (some 2_000_000_000)
    ∷ resumes at_900 first_frame (some 6_000_000_000) (record { src = some 2; last = none })
    ∷ []

acts-AloneAll : AloneAll acts busy
unfolding push push_still prepare program_pts sub?
acts-AloneAll = (tt, (tt, (tt, ((λ e. absurd (cc)), tt))))

queued-Rising_example : Rising busy.last (queued acts busy)
queued-Rising_example = queued-Rising acts busy acts-AloneAll (omega arith)

push-follow_on_base_example :
    let slot = next_slot busy.last (900_000_000 + lead) in
    push at_900 first_frame (some 2_940_000_000) busy ≡ (
      record busy { last = some (slot, slot + or_zero first_frame.duration) },
      some (record {
        start = slot;
        end = slot + or_zero first_frame.duration;
        gap = is_gap busy.last slot;
        still = false;
      }),
    )
unfolding follow_on_base sub?
push-follow_on_base_example =
    push-follow_on_base at_900 first_frame busy 3_000_000_000 900_000_000 2_940_000_000 refl refl
      (omega arith) refl

abbrev map_last : Option Prepared → Lane → Option (ℕ × ℕ)
map_last b lane = (commit_any b lane).0.last

-- A still of two seconds that is queued between the two holds of a push: the player's buffer is queued after it, and starts before it.
interleaved :
    let still = (push_still at_900 2_000_000_000 busy).0 in
    (still.last ≡ some (1_040_000_000, 3_040_000_000))
    × (map_last (prepare at_900 first_frame (some 3_000_000_000) busy) still
        ≡ some (1_100_000_000, 1_140_000_000))
unfolding push_still prepare program_pts sub?
interleaved = (refl, refl)
