-- ===== src/Ltc.antt =====
-- node/src/sources/ltc/decode.rs: the decoder of linear timecode. Its floats are a parameter; the last
-- 80 bits are a list, the newest first, which stands for the 80 bits of `window` from the lowest.
pub mod Bits
pub mod Ring
pub mod Kept
pub mod Frame
mod Examples
use capture_room.Prelude.{
  ℕ, zero, suc, ◌+◌, ◌-◌, ◌*◌, ◌/◌, ◌%◌, ◌^◌, min, Bool, true, false, not, ◌&&◌, ◌||◌, Option, none,
  some, List, [], ◌∷◌, ltb, leb, ◌==◌, if◌then◌else◌, take, get_elem?, sub?,
}

-- 32-bit floats: what the decoder computes with.
pub record Floats : Type 1 where
  pub F : Type 0
  pub add : F → F → F
  pub subtract : F → F → F
  pub multiply : F → F → F
  pub divide : F → F → F
  pub greater : F → F → F
  pub abs : F → F
  pub negate : F → F
  pub less : F → F → Bool
  pub from_nat : ℕ → F
  -- A literal: so many ten-thousandths.
  pub literal : ℕ → F

pub record LtcFrame : Type 0 where
  pub hours : ℕ
  pub minutes : ℕ
  pub seconds : ℕ
  pub frames : ℕ
  pub drop_frame : Bool
  pub start : ℕ
  pub samples : ℕ

-- What a sample or a bit gives: a subtraction below 0 panics.
pub data Heard : Type 0 where
  quiet panicked : Heard
  heard : LtcFrame → Heard

pub record Decoder (F : Type 0) : Type 0 where
  pub sample : ℕ
  pub mean : F
  pub peak : F
  pub high : Bool
  pub last_edge : Option ℕ
  pub half : F
  pub pending_one : Option ℕ
  pub window : List Bool
  pub starts : List ℕ
  pub next : ℕ
  pub run : ℕ

abbrev pub fill : {A : Type 0} → ℕ → A → List A
fill zero a = []
fill (suc n) a = a ∷ fill n a

unfoldable pub default : (fl : Floats) → Decoder fl.F
default fl = record {
  sample = 0;
  mean = fl.literal 0;
  peak = fl.literal 0;
  high = false;
  last_edge = none;
  half = fl.literal 110_000;
  pending_one = none;
  window = fill 80 false;
  starts = fill 80 0;
  next = 0;
  run = 0;
}

-- Bits 64 to 79 as sent, the last one first.
abbrev pub is_sync : List Bool → Bool
is_sync
      (true ∷ false ∷ true ∷ true ∷ true ∷ true ∷ true ∷ true ∷ true ∷ true ∷ true ∷ true ∷ true
        ∷ true ∷ false ∷ false ∷ older) =
    true
is_sync _ = false

abbrev pub write : {A : Type 0} → ℕ → A → List A → List A
write i a [] = []
write zero a (x ∷ xs) = a ∷ xs
write (suc i) a (x ∷ xs) = x ∷ write i a xs

abbrev pub lose_clock : {F : Type 0} → Decoder F → Decoder F
lose_clock d = record d { pending_one = none; run = 0 }

-- Bit `k` of the frame.
abbrev pub sent : ℕ → List Bool → ℕ
sent k window = elim (get_elem? window (79 - k)) [ some true ↦ 1 | _ ↦ 0 ]

-- The number in the `len` bits from bit `k`, lowest first.
unfoldable pub bits : ℕ → ℕ → List Bool → ℕ
bits k zero window = 0
bits k (suc len) window = sent k window + 2 * bits (k + 1) len window

abbrev pub in_range : LtcFrame → Bool
in_range f = ltb f.hours 24 && ltb f.minutes 60 && ltb f.seconds 60 && ltb f.frames 30

abbrev pub checked : LtcFrame → Heard
checked f = if in_range f then heard f else quiet

-- The units are decimal digits.
abbrev pub from_digits : ℕ → ℕ → ℕ → ℕ → ℕ → ℕ → ℕ → ℕ → Bool → ℕ → ℕ → Heard
from_digits fu ft su st mu mt hu ht drop start samples =
    if ltb 9 fu || ltb 9 su || ltb 9 mu || ltb 9 hu
    then quiet
    else checked (record {
      hours = ht * 10 + hu;
      minutes = mt * 10 + mu;
      seconds = st * 10 + su;
      frames = ft * 10 + fu;
      drop_frame = drop;
      start = start;
      samples = samples;
    })

abbrev pub frame : List Bool → ℕ → ℕ → Heard
frame w start samples =
    from_digits (bits 0 4 w) (bits 8 2 w) (bits 16 4 w) (bits 24 3 w) (bits 32 4 w) (bits 40 3 w)
      (bits 48 4 w) (bits 56 2 w) (bits 10 1 w == 1) start samples

-- A bit is kept.
unfoldable pub shift : {F : Type 0} → ℕ → Bool → Decoder F → Decoder F
shift start one d = record d {
  window = take 80 (one ∷ d.window);
  starts = write d.next start d.starts;
  next = (d.next + 1) % 80;
  run = min (d.run + 1) 4_294_967_295;
}

abbrev pub frame_since : List Bool → ℕ → Option ℕ → Heard
frame_since w start none = panicked
frame_since w start (some samples) = frame w start (samples % 2 ^ 32)

abbrev pub frame_from : List Bool → ℕ → Option ℕ → Heard
frame_from w end none = panicked
frame_from w end (some first) = frame_since w first (sub? end first)

-- The oldest start stands where the next one goes.
unfoldable pub hear : {F : Type 0} → ℕ → Decoder F → Heard
unfolding sub?
hear end d =
    if ltb d.run 80 || not (is_sync d.window)
    then quiet
    else frame_from d.window end (get_elem? d.starts d.next)

abbrev pub bit : {F : Type 0} → ℕ → Bool → ℕ → Decoder F → Decoder F × Heard
bit start one end d = let kept = shift start one d in (kept, hear end kept)

abbrev pub whole_bit : {F : Type 0} → Option ℕ → ℕ → ℕ → Decoder F → Decoder F × Heard
whole_bit none last n d = bit last false n (record d { pending_one = none })
whole_bit (some start) last n d = (lose_clock d, quiet)

abbrev pub half_bit : {F : Type 0} → Option ℕ → ℕ → ℕ → Decoder F → Decoder F × Heard
half_bit none last n d = (record d { pending_one = some last }, quiet)
half_bit (some start) last n d = bit start true n (record d { pending_one = none })

-- An interval of no bit, of a whole one or of half a 1.
abbrev pub interval_by :
    (fl : Floats) → Bool → Bool → ℕ → ℕ → fl.F → Decoder fl.F → Decoder fl.F × Heard
interval_by fl true whole last n len d = (lose_clock d, quiet)
interval_by fl false true last n len d = whole_bit d.pending_one last n (record d {
  half =
      fl.add d.half
        (fl.multiply (fl.subtract (fl.divide len (fl.literal 20_000)) d.half) (fl.literal 1_000));
})
interval_by fl false false last n len d =
    half_bit d.pending_one last n
      (record d { half = fl.add d.half (fl.multiply (fl.subtract len d.half) (fl.literal 1_000)) })

-- An edge at `n`, the one before `len` samples earlier at `last`.
abbrev pub interval_of : (fl : Floats) → ℕ → ℕ → fl.F → Decoder fl.F → Decoder fl.F × Heard
interval_of fl last n len d =
    interval_by fl
      (fl.less len (fl.multiply (fl.literal 5_000) d.half)
        || fl.less (fl.multiply (fl.literal 26_000) d.half) len)
      (fl.less (fl.multiply (fl.literal 15_000) d.half) len) last n len d

abbrev pub interval_since : (fl : Floats) → ℕ → ℕ → Option ℕ → Decoder fl.F → Decoder fl.F × Heard
interval_since fl last n none d = (d, panicked)
interval_since fl last n (some len) d = interval_of fl last n (fl.from_nat len) d

unfoldable pub interval : (fl : Floats) → ℕ → ℕ → Decoder fl.F → Decoder fl.F × Heard
unfolding sub? shift hear
interval fl last n d = interval_since fl last n (sub? n last) d

abbrev pub edge_after : (fl : Floats) → Option ℕ → ℕ → Decoder fl.F → Decoder fl.F × Heard
edge_after fl none n d = (d, quiet)
edge_after fl (some last) n d = interval fl last n d

-- Sample `n` is silence, an edge or neither.
abbrev pub listen_by : (fl : Floats) → Bool → Bool → ℕ → Decoder fl.F → Decoder fl.F × Heard
listen_by fl true edge n d = (record (lose_clock d) { last_edge = none }, quiet)
listen_by fl false true n d =
    edge_after fl d.last_edge n (record d { high = not d.high; last_edge = some n })
listen_by fl false false n d = (d, quiet)

-- Whether `level` is an edge, from high to low or from low to high.
abbrev pub is_edge : (fl : Floats) → Bool → fl.F → fl.F → Bool
is_edge fl true level threshold = fl.less level (fl.negate threshold)
is_edge fl false level threshold = fl.less threshold level

-- A sample's level about the mean, and the peak of the levels.
abbrev pub listen : (fl : Floats) → fl.F → fl.F → ℕ → Decoder fl.F → Decoder fl.F × Heard
listen fl level peak n d =
    listen_by fl (fl.less peak (fl.literal 30))
      (is_edge fl d.high level (fl.multiply peak (fl.literal 3_000))) n d

unfoldable pub push : (fl : Floats) → fl.F → Decoder fl.F → Decoder fl.F × Heard
unfolding interval
push fl x d =
    let mean = fl.add d.mean (fl.divide (fl.subtract x d.mean) (fl.literal 9_600_000)) in
    let level = fl.subtract x mean in
    let peak = fl.greater (fl.multiply d.peak (fl.literal 9_996)) (fl.abs level) in
    listen fl level peak d.sample (record d { sample = d.sample + 1; mean = mean; peak = peak })
