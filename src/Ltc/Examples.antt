-- ===== src/Ltc/Examples.antt =====
-- A frame of 80 bits, 25 samples a bit.
use capture_room.Prelude.{List, [], ◌∷◌, ℕ, ◌+◌, ◌-◌, ◌*◌, ◌/◌, ◌≡◌, true, max, ltb, arith}
use capture_room.Ltc.{Floats, heard, quiet, default}
use capture_room.Ltc.Bits.{Time, frame_bits}
use capture_room.Ltc.Ring.{last_heard}
use capture_room.Ltc.Kept.{hears}
use capture_room.Ltc.Frame.{IsTime, time_frame, last_heard-frame}

-- Numbers in ten-thousandths.
abbrev naturals : Floats
naturals = record {
  F = ℕ;
  add = λ a b. a + b;
  subtract = λ a b. a - b;
  multiply = λ a b. a * b / 10_000;
  divide = λ a b. a * 10_000 / b;
  greater = λ a b. max a b;
  abs = λ a. a;
  negate = λ a. 0;
  less = λ a b. ltb a b;
  from_nat = λ n. n * 10_000;
  literal = λ n. n;
}

abbrev noon : Time
noon = record { h = 12; m = 34; s = 56; f = 29; drop_frame = true }

noon-IsTime : IsTime noon
noon-IsTime = record { h = omega arith; m = omega arith; s = omega arith; f = omega arith }

-- Some samples before the frame.
abbrev before : List ℕ
before = 5_000 ∷ 0 ∷ 5_000 ∷ []

last_heard-frame_example :
    last_heard (λ k. 25 * k) 0 (frame_bits noon) quiet (hears naturals before (default naturals))
    ≡ heard (time_frame noon 0 2000)
last_heard-frame_example =
    last_heard-frame naturals before noon (λ k. 25 * k) noon-IsTime (omega arith) (omega arith)
