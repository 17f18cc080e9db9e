-- ===== src/Auth/Utf8.antt =====
-- What node/src/auth.rs uses of Rust's text, as lists of code points, with their bytes in UTF-8.
use capture_room.Prelude.{
  ℕ, ◌+◌, ◌-◌, ◌/◌, ◌%◌, Bool, true, false, ◌&&◌, ◌||◌, Option, none, some, List, [], ◌∷◌, ◌++◌,
  ◌==◌, ltb, leb, if◌then◌else◌, length,
}

abbrev pub Text : Type 0
Text = List ℕ

abbrev pub within : ℕ → ℕ → ℕ → Bool
within a b c = leb a c && leb c b

abbrev pub is_ascii_digit : ℕ → Bool
is_ascii_digit = within 48 57

abbrev pub is_ascii_uppercase : ℕ → Bool
is_ascii_uppercase = within 65 90

abbrev pub is_ascii_lowercase : ℕ → Bool
is_ascii_lowercase = within 97 122

abbrev pub is_ascii_alphanumeric : ℕ → Bool
is_ascii_alphanumeric c = is_ascii_digit c || is_ascii_uppercase c || is_ascii_lowercase c

abbrev pub to_ascii_uppercase : ℕ → ℕ
to_ascii_uppercase c = if is_ascii_lowercase c then c - 32 else c

-- Unicode's White_Space.
abbrev pub is_white : ℕ → Bool
is_white c =
    within 9 13 c
    || c == 32
    || c == 133
    || c == 160
    || c == 5760
    || within 8192 8202 c
    || within 8232 8233 c
    || c == 8239
    || c == 8287
    || c == 12288

abbrev pub trim_start : Text → Text
trim_start [] = []
trim_start (c ∷ t) = let rest = trim_start t in if is_white c then rest else c ∷ t

abbrev pub before_white : ℕ → Text → Text
before_white c [] = if is_white c then [] else c ∷ []
before_white c (d ∷ t) = c ∷ d ∷ t

abbrev pub trim_end : Text → Text
trim_end [] = []
trim_end (c ∷ t) = before_white c (trim_end t)

abbrev pub trim : Text → Text
trim t = trim_end (trim_start t)

-- A code point's bytes.
abbrev pub encode : ℕ → List ℕ
encode c =
    if ltb c 128
    then c ∷ []
    else if ltb c 2048
    then (192 + c / 64) ∷ (128 + c % 64) ∷ []
    else if ltb c 65536
    then (224 + c / 4096) ∷ (128 + c / 64 % 64) ∷ (128 + c % 64) ∷ []
    else (240 + c / 262144) ∷ (128 + c / 4096 % 64) ∷ (128 + c / 64 % 64) ∷ (128 + c % 64) ∷ []

abbrev pub as_bytes : Text → List ℕ
as_bytes [] = []
as_bytes (c ∷ t) = encode c ++ as_bytes t

-- The number of bytes.
abbrev pub len : Text → ℕ
len t = length (as_bytes t)

abbrev pub all : (ℕ → Bool) → Text → Bool
all p [] = true
all p (c ∷ t) = p c && all p t

-- The rest of a text after a prefix.
abbrev pub strip_prefix : Text → Text → Option Text
strip_prefix [] t = some t
strip_prefix (p ∷ ps) [] = none
strip_prefix (p ∷ ps) (c ∷ t) = let rest = strip_prefix ps t in if p == c then rest else none

abbrev pub extend : ℕ → List Text → List Text
extend c [] = (c ∷ []) ∷ []
extend c (part ∷ parts) = (c ∷ part) ∷ parts

-- The parts between the separators; a text without one is one part.
abbrev pub split : ℕ → Text → List Text
split sep [] = [] ∷ []
split sep (c ∷ t) = let rest = split sep t in if c == sep then [] ∷ rest else extend c rest

abbrev pub behind : ℕ → Option (Text × Text) → Option (Text × Text)
behind c none = none
behind c (some p) = some (c ∷ p.0, p.1)

abbrev pub split_once : ℕ → Text → Option (Text × Text)
split_once sep [] = none
split_once sep (c ∷ t) =
    let rest = split_once sep t in if c == sep then some ([], t) else behind c rest

abbrev pub same : Text → Text → Bool
same [] [] = true
same [] (d ∷ u) = false
same (c ∷ t) [] = false
same (c ∷ t) (d ∷ u) = c == d && same t u
