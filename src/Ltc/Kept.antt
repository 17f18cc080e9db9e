-- ===== src/Ltc/Kept.antt =====
-- What every sample keeps true of a decoder: its ring of starts has 80 places.
use capture_room.Prelude.{
  ℕ, ◌+◌, ◌<◌, ◌≡◌, refl, ◌∙◌, Bool, true, false, not, Option, none, some, List, [], ◌∷◌, length,
  arith, sub?,
}
use capture_room.Ltc.{
  Floats, Decoder, default, shift, bit, whole_bit, half_bit, interval_by, interval_since, interval,
  edge_after, listen_by, is_edge, push,
}
use capture_room.Ltc.Ring.{length-write}

pub record IsRing {F : Type 0} (d : Decoder F) : Type 0 where
  pub next_fits : d.next < 80
  pub places : length d.starts ≡ 80

-- The decoder once it has heard the samples.
pub hears : (fl : Floats) → List fl.F → Decoder fl.F → Decoder fl.F
hears fl [] d = d
hears fl (x ∷ xs) d = hears fl xs (push fl x d).0

bit-IsRing :
    {F : Type 0} (start : ℕ) (one : Bool) (end : ℕ) (d : Decoder F)
    → IsRing d
    → IsRing (bit start one end d).0
unfolding shift
bit-IsRing start one end d h = record {
  next_fits = omega arith;
  places = length-write d.next start d.starts ∙ h.places;
}

whole_bit-IsRing :
    {F : Type 0} (o : Option ℕ) (last n : ℕ) (d : Decoder F)
    → IsRing d
    → IsRing (whole_bit o last n d).0
whole_bit-IsRing none last n d h =
    bit-IsRing last false n (record d { pending_one = none })
      (record { next_fits = h.next_fits; places = h.places })
whole_bit-IsRing (some start) last n d h = record { next_fits = h.next_fits; places = h.places }

half_bit-IsRing :
    {F : Type 0} (o : Option ℕ) (last n : ℕ) (d : Decoder F)
    → IsRing d
    → IsRing (half_bit o last n d).0
half_bit-IsRing none last n d h = record { next_fits = h.next_fits; places = h.places }
half_bit-IsRing (some start) last n d h =
    bit-IsRing start true n (record d { pending_one = none })
      (record { next_fits = h.next_fits; places = h.places })

interval-IsRing :
    (fl : Floats) (last n : ℕ) (d : Decoder fl.F) → IsRing d → IsRing (interval fl last n d).0
unfolding interval
interval-IsRing fl last n d h = by_length (sub? n last)
  where
    kept : (half : fl.F) → IsRing (record d { half = half })
    kept half = record { next_fits = h.next_fits; places = h.places }

    by_kind : (lost whole : Bool) (len : fl.F) → IsRing (interval_by fl lost whole last n len d).0
    by_kind true whole len = record { next_fits = h.next_fits; places = h.places }
    by_kind false true len = whole_bit-IsRing d.pending_one last n _ (kept _)
    by_kind false false len = half_bit-IsRing d.pending_one last n _ (kept _)

    by_length : (o : Option ℕ) → IsRing (interval_since fl last n o d).0
    by_length none = h
    by_length (some len) = by_kind _ _ (fl.from_nat len)

edge_after-IsRing :
    (fl : Floats) (o : Option ℕ) (n : ℕ) (d : Decoder fl.F)
    → IsRing d
    → IsRing (edge_after fl o n d).0
edge_after-IsRing fl none n d h = h
edge_after-IsRing fl (some last) n d h = interval-IsRing fl last n d h

listen_by-IsRing :
    (fl : Floats) (silent edge : Bool) (n : ℕ) (d : Decoder fl.F)
    → IsRing d
    → IsRing (listen_by fl silent edge n d).0
listen_by-IsRing fl true edge n d h = record { next_fits = h.next_fits; places = h.places }
listen_by-IsRing fl false true n d h =
    edge_after-IsRing fl d.last_edge n (record d { high = not d.high; last_edge = some n })
      (record { next_fits = h.next_fits; places = h.places })
listen_by-IsRing fl false false n d h = h

push-IsRing : (fl : Floats) (x : fl.F) (d : Decoder fl.F) → IsRing d → IsRing (push fl x d).0
unfolding push
push-IsRing fl x d h =
    let mean = fl.add d.mean (fl.divide (fl.subtract x d.mean) (fl.literal 9_600_000)) in
    let level = fl.subtract x mean in
    let peak = fl.greater (fl.multiply d.peak (fl.literal 9_996)) (fl.abs level) in
    listen_by-IsRing fl (fl.less peak (fl.literal 30))
      (is_edge fl d.high level (fl.multiply peak (fl.literal 3_000))) d.sample
      (record d { sample = d.sample + 1; mean = mean; peak = peak })
      (record { next_fits = h.next_fits; places = h.places })

hears-IsRing : (fl : Floats) (xs : List fl.F) (d : Decoder fl.F) → IsRing d → IsRing (hears fl xs d)
unfolding hears
hears-IsRing fl [] d h = h
hears-IsRing fl (x ∷ xs) d h = hears-IsRing fl xs (push fl x d).0 (push-IsRing fl x d h)

pub heard-IsRing : (fl : Floats) (xs : List fl.F) → IsRing (hears fl xs (default fl))
unfolding default
heard-IsRing fl xs =
    hears-IsRing fl xs (default fl) (record { next_fits = omega arith; places = refl })
