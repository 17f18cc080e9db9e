-- ===== src/Ltc/Frame.antt =====
-- A frame that is sent is the frame that is decoded.
use capture_room.Prelude.{
  ℕ, suc, ◌+◌, ◌-◌, ◌/◌, ◌%◌, ◌^◌, ◌≤◌, ◌<◌, ◌≡◌, refl, Bool, true, some, List, [], ◌∷◌, get_elem?,
  arith, length, sym, ap, subst, ◌∙◌, sub?-eq_some,
}
use capture_room.Ltc.{
  Floats, default, quiet, Decoder, Heard, heard, LtcFrame, frame, frame_from, frame_since,
  from_digits, hear, is_sync,
}
use capture_room.Ltc.Bits.{
  Time, frame_bits, shifted, Reads, shifted-Reads, shifted_sync, length-frame_bits,
}
use capture_room.Ltc.Kept.{hears, heard-IsRing}
use capture_room.Ltc.Ring.{shifts, last_heard, Turned, start-Turned, shifts_window, last_heard-hear}

pub record IsTime (t : Time) : Type 0 where
  pub h : t.h < 24
  pub m : t.m < 60
  pub s : t.s < 60
  pub f : t.f < 30

abbrev pub time_frame : Time → ℕ → ℕ → LtcFrame
time_frame t start samples = record {
  hours = t.h;
  minutes = t.m;
  seconds = t.s;
  frames = t.f;
  drop_frame = t.drop_frame;
  start = start;
  samples = samples;
}

digits_checked :
    (t : Time) (start samples : ℕ)
    → IsTime t
    → from_digits
        (t.f % 10)
        (t.f / 10)
        (t.s % 10)
        (t.s / 10)
        (t.m % 10)
        (t.m / 10)
        (t.h % 10)
        (t.h / 10)
        t.drop_frame
        start
        samples
      ≡ heard (time_frame t start samples)
digits_checked t start samples v = ground (arith, v.h, v.m, v.s, v.f)

frame_read :
    (t : Time) (w : List Bool) (start samples : ℕ)
    → IsTime t
    → Reads t w
    → frame w start samples ≡ heard (time_frame t start samples)
frame_read t w start samples v r =
    simp
      (
        r.fu,
        r.ft (omega (arith, v.f)),
        r.su,
        r.st (omega (arith, v.s)),
        r.mu,
        r.mt (omega (arith, v.m)),
        r.hu,
        r.ht (omega (arith, v.h)),
        r.drop,
      )
      (digits_checked t start samples v)

samples_read :
    (t : Time) (w : List Bool) (first end : ℕ)
    → IsTime t
    → Reads t w
    → first ≤ end
    → end - first < 2 ^ 32
    → frame_from w end (some first) ≡ heard (time_frame t first (end - first))
samples_read t w first end v r le small =
    ap (frame_since w first) (sub?-eq_some first end le)
    ∙ ap (λ (n : ℕ). frame w first n) (omega (arith, small))
    ∙ frame_read t w first (end - first) v r

-- A decoder with 80 bits, which are the frame's, of which the oldest started at `first`.
hear-frame :
    {F : Type 0} (t : Time) (p first end : ℕ) (d : Decoder F)
    → IsTime t
    → p < 80
    → Turned p first 80 d
    → is_sync d.window ≡ true
    → Reads t d.window
    → first ≤ end
    → end - first < 2 ^ 32
    → hear end d ≡ heard (time_frame t first (end - first))
unfolding hear
hear-frame t p first end d v hp u sy r le small =
    ground (arith, u.ran, sy, oldest, samples_read t d.window first end v r le small)
  where
    next_is : d.next ≡ p
    next_is = omega (arith, u.turned, hp)

    oldest : get_elem? d.starts d.next ≡ some first
    oldest = ap (λ (i : ℕ). get_elem? d.starts i) next_is ∙ u.at_p

ring-frame :
    {F : Type 0} (t : Time) (at : ℕ → ℕ) (before : Heard) (d : Decoder F)
    → IsTime t
    → d.next < 80
    → length d.starts ≡ 80
    → at 0 ≤ at 80
    → at 80 - at 0 < 2 ^ 32
    → last_heard at 0 (frame_bits t) before d ≡ heard (time_frame t (at 0) (at 80 - at 0))
ring-frame t at before d v n r le small = by_bits (frame_bits t) refl
  where
    count : (b : Bool) (bs : List Bool) → frame_bits t ≡ b ∷ bs → 0 + suc (length bs) ≡ 80
    count b bs e = omega (arith, ap length (sym e) ∙ length-frame_bits t)

    by_bits :
        (bs : List Bool)
        → frame_bits t ≡ bs
        → last_heard at 0 bs before d ≡ heard (time_frame t (at 0) (at 80 - at 0))
    by_bits [] e = absurd (omega (arith, ap length (sym e) ∙ length-frame_bits t))
    by_bits (b ∷ bs) e =
        let w =
          shifts_window at 0 (b ∷ bs) d ∙ ap (λ (x : List Bool). shifted x d.window) (sym e) in
        last_heard-hear at 0 b bs before d
        ∙ ap (λ (k : ℕ). hear (at k) (shifts at 0 (b ∷ bs) d)) (count b bs e)
        ∙ hear-frame t d.next (at 0) (at 80) (shifts at 0 (b ∷ bs) d) v n
            (start-Turned at b bs d (omega (arith, count b bs e)) n r)
            (ap is_sync w ∙ shifted_sync t d.window)
            (subst (Reads t) (sym w) (shifted-Reads t d.window)) le small

-- Whatever samples a decoder has heard before, the 80 bits of a frame with a valid time, sent one after
-- another, give that frame at the last bit, with the sample that its first bit starts at and its
-- length (if the bits do not end before they start, and their length is below 2^32).
pub last_heard-frame :
    (fl : Floats) (xs : List fl.F) (t : Time) (at : ℕ → ℕ)
    → IsTime t
    → at 0 ≤ at 80
    → at 80 - at 0 < 2 ^ 32
    → last_heard at 0 (frame_bits t) quiet (hears fl xs (default fl))
      ≡ heard (time_frame t (at 0) (at 80 - at 0))
last_heard-frame fl xs t at v le small =
    let ring = heard-IsRing fl xs in
    ring-frame t at quiet (hears fl xs (default fl)) v ring.next_fits ring.places le small
