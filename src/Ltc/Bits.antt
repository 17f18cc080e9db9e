-- ===== src/Ltc/Bits.antt =====
-- The 80 bits of a frame, as the tests' encoder lays them out, and what the decoder reads from them.
use capture_room.Prelude.{
  ℕ, zero, suc, ◌+◌, ◌*◌, ◌/◌, ◌%◌, ◌^◌, ◌<◌, ◌≡◌, refl, Bool, true, false, List, [], ◌∷◌, ◌++◌,
  ◌==◌, arith, take, length,
}
use capture_room.Ltc.{bits, fill, is_sync}

-- The lowest `n` bits, lowest first.
unfoldable pub bits_of : ℕ → ℕ → List Bool
bits_of zero v = []
bits_of (suc n) v = (v % 2 == 1) ∷ bits_of n (v / 2)

abbrev pub worth : Bool → ℕ
worth true = 1
worth false = 0

pub value : List Bool → ℕ
value [] = 0
value (b ∷ bs) = worth b + 2 * value bs

worth_lem : (v : ℕ) → worth (v % 2 == 1) ≡ v % 2
worth_lem v = ground arith

pub value-bits_of : (n v : ℕ) → v < 2 ^ n → value (bits_of n v) ≡ v
unfolding value bits_of
value-bits_of zero v h = omega (arith, h)
value-bits_of (suc n) v h = omega (arith, worth_lem v, value-bits_of n (v / 2) (omega (arith, h)))

-- A frame's time, as digits of the bits sent.
pub record Time : Type 0 where
  pub h : ℕ
  pub m : ℕ
  pub s : ℕ
  pub f : ℕ
  pub drop_frame : Bool

abbrev pub sync_word : List Bool
sync_word =
    false ∷ false ∷ true ∷ true ∷ true ∷ true ∷ true ∷ true ∷ true ∷ true ∷ true ∷ true ∷ true
    ∷ true ∷ false ∷ true ∷ []

unfoldable pub frame_bits : Time → List Bool
unfolding bits_of
frame_bits t =
    bits_of 4 (t.f % 10)
    ++ fill 4 false
    ++ bits_of 2 (t.f / 10)
    ++ t.drop_frame ∷ fill 5 false
    ++ bits_of 4 (t.s % 10)
    ++ fill 4 false
    ++ bits_of 3 (t.s / 10)
    ++ fill 5 false
    ++ bits_of 4 (t.m % 10)
    ++ fill 4 false
    ++ bits_of 3 (t.m / 10)
    ++ fill 5 false
    ++ bits_of 4 (t.h % 10)
    ++ fill 4 false
    ++ bits_of 2 (t.h / 10)
    ++ fill 6 false
    ++ sync_word

-- The bits kept once these have come, the newest first.
unfoldable pub shifted : List Bool → List Bool → List Bool
shifted [] w = w
shifted (b ∷ bs) w = shifted bs (take 80 (b ∷ w))

-- The digits that the decoder reads once a frame's bits have come.
pub record Reads (t : Time) (w : List Bool) : Type 0 where
  pub fu : bits 0 4 w ≡ t.f % 10
  pub ft : t.f < 40 → bits 8 2 w ≡ t.f / 10
  pub su : bits 16 4 w ≡ t.s % 10
  pub st : t.s < 80 → bits 24 3 w ≡ t.s / 10
  pub mu : bits 32 4 w ≡ t.m % 10
  pub mt : t.m < 80 → bits 40 3 w ≡ t.m / 10
  pub hu : bits 48 4 w ≡ t.h % 10
  pub ht : t.h < 40 → bits 56 2 w ≡ t.h / 10
  pub drop : (bits 10 1 w == 1) ≡ t.drop_frame

drop_read : (b : Bool) → (worth b + 2 * 0 == 1) ≡ b
drop_read true = refl
drop_read false = refl

pub shifted-Reads : (t : Time) (w : List Bool) → Reads t (shifted (frame_bits t) w)
unfolding bits frame_bits shifted value bits_of
shifted-Reads t w = record {
  fu = value-bits_of 4 (t.f % 10) (omega arith);
  ft = λ h. value-bits_of 2 (t.f / 10) (omega (arith, h));
  su = value-bits_of 4 (t.s % 10) (omega arith);
  st = λ h. value-bits_of 3 (t.s / 10) (omega (arith, h));
  mu = value-bits_of 4 (t.m % 10) (omega arith);
  mt = λ h. value-bits_of 3 (t.m / 10) (omega (arith, h));
  hu = value-bits_of 4 (t.h % 10) (omega arith);
  ht = λ h. value-bits_of 2 (t.h / 10) (omega (arith, h));
  drop = drop_read t.drop_frame;
}

pub shifted_sync : (t : Time) (w : List Bool) → is_sync (shifted (frame_bits t) w) ≡ true
unfolding frame_bits shifted bits_of
shifted_sync t w = refl

pub length-frame_bits : (t : Time) → length (frame_bits t) ≡ 80
unfolding frame_bits bits_of
length-frame_bits t = refl
