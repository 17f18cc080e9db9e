-- ===== src/Auth.antt =====
-- node/src/auth.rs: a node's access token, the pairing code that a controller adds it with, and the links
-- that sign a browser in. A text is a list of code points; random bytes, times, hashes and whether the
-- database stores a value are arguments.
pub mod Utf8
pub mod Requests
pub mod Links
pub mod Compare
pub mod Tries
pub mod Pairs
pub mod Codes
pub mod Random
pub mod Carried
pub mod Used
mod Examples
use Prim.Native.Nat.{bit_or, bit_xor}
use capture_room.Prelude.{
  ℕ, zero, suc, ◌+◌, ◌-◌, ◌%◌, Bool, true, false, not, ◌&&◌, ◌||◌, Option, none, some, List, [],
  ◌∷◌, ◌++◌, map, ◌==◌, ltb, leb, if◌then◌else◌, length, get_elem?, retain, take, drop,
}
use capture_room.Auth.Utf8.{Text, as_bytes, is_ascii_alphanumeric, to_ascii_uppercase, len}

-- Five wrong codes.
abbrev pub pairing_attempts : ℕ
pairing_attempts = 5

abbrev pub span : ℕ → ℕ → Text
span c zero = []
span c (suc n) = c ∷ span (c + 1) n

-- A-H J-N P-Z a-k m-z 2-9
abbrev pub token_alphabet : Text
token_alphabet = span 65 8 ++ span 74 5 ++ span 80 11 ++ span 97 11 ++ span 109 14 ++ span 50 8

abbrev pub token_len : ℕ
token_len = 32

-- A-H J K M N P-Z 2-9
abbrev pub pairing_alphabet : Text
pairing_alphabet = span 65 8 ++ span 74 2 ++ span 77 2 ++ span 80 11 ++ span 50 8

abbrev pub pairing_len : ℕ
pairing_len = 8

abbrev pub fold_differences : ℕ → List ℕ → List ℕ → ℕ
fold_differences acc [] b = acc
fold_differences acc (x ∷ a) [] = acc
fold_differences acc (x ∷ a) (y ∷ b) = fold_differences (bit_or acc (bit_xor x y)) a b

unfoldable pub constant_time_eq : List ℕ → List ℕ → Bool
constant_time_eq a b = (length a == length b) && (fold_differences 0 a b == 0)

-- The index that a random byte gives into k characters. Bytes that would favour some of them are
-- skipped.
abbrev pub pick : ℕ → ℕ → Option ℕ
pick k b = if ltb b (256 - 256 % k) then some (b % k) else none

-- `none` is an index out of range.
abbrev pub push_char : Option ℕ → Option Text → Option Text
push_char none rest = none
push_char (some c) none = none
push_char (some c) (some t) = some (c ∷ t)

abbrev pub draw_with : Option ℕ → Text → Option Text → Option Text → Option Text
draw_with none alphabet skipped rest = skipped
draw_with (some i) alphabet skipped rest = push_char (get_elem? alphabet i) rest

-- So many characters, from the bytes that the random source gives; `none` if these do not suffice.
unfoldable pub random_string : Text → ℕ → List ℕ → Option Text
random_string alphabet zero bytes = some []
random_string alphabet (suc n) [] = none
random_string alphabet (suc n) (b ∷ bytes) =
    draw_with (pick (length alphabet) b) alphabet (random_string alphabet (suc n) bytes)
      (random_string alphabet n bytes)

unfoldable pub new_token : List ℕ → Option Text
new_token = random_string token_alphabet token_len

unfoldable pub new_pairing_code : List ℕ → Option Text
new_pairing_code = random_string pairing_alphabet pairing_len

-- With a dash (45) in the middle of eight.
unfoldable pub format_pairing_code : Text → Text
format_pairing_code code = if len code == pairing_len then take 4 code ++ 45 ∷ drop 4 code else code

unfoldable pub normalize_pairing_code : Text → Text
normalize_pairing_code code = map to_ascii_uppercase (retain is_ascii_alphanumeric code)

pub record Pairing : Type 0 where
  pub code : Text
  pub failures : ℕ

pub data Attempt : Type 0 where
  right wrong exhausted : Attempt

abbrev pub fresh : Text → Pairing
fresh code = record { code = code; failures = 0 }

abbrev pub is_empty : Text → Bool
is_empty [] = true
is_empty (c ∷ t) = false

abbrev pub count_failure : Pairing → Pairing × Attempt
count_failure p = (
  record p { failures = p.failures + 1 },
  if leb pairing_attempts (p.failures + 1) then exhausted else wrong,
)

-- A code that has had all its tries accepts nothing.
unfoldable pub attempt : Text → Pairing → Pairing × Attempt
attempt presented p =
    if is_empty p.code || leb pairing_attempts p.failures
    then (p, wrong)
    else if constant_time_eq (as_bytes (normalize_pairing_code presented)) (as_bytes p.code)
    then (p, right)
    else count_failure p

-- The token and the pairing code in use.
pub record AccessToken : Type 0 where
  pub token : Option Text
  pub pairing : Pairing

abbrev pub accepts_with : Option Text → Option Text → Bool
accepts_with none presented = false
accepts_with (some token) none = false
accepts_with (some token) (some p) = constant_time_eq (as_bytes p) (as_bytes token)

unfoldable pub accepts : Option Text → AccessToken → Bool
accepts presented a = accepts_with a.token presented
