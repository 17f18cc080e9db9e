-- ===== src/Auth/Codes.antt =====
-- Pairing codes as they are shown and typed.
use capture_room.Prelude.{
  ℕ, zero, suc, ◌+◌, ◌<◌, ◌≡◌, refl, true, false, ◌||◌, [], ◌∷◌, ◌++◌, ◌==◌, inl, inr, All, arith,
  take, drop, Bool-cases,
}
use capture_room.Auth.Utf8.{
  Text, is_ascii_alphanumeric, is_ascii_uppercase, is_ascii_digit, to_ascii_uppercase, as_bytes,
  encode, len,
}
use capture_room.Auth.{format_pairing_code, normalize_pairing_code, pairing_len}

-- Capitals and digits.
abbrev pub IsCode : Text → Type 0
IsCode code = All (λ (c : ℕ). (is_ascii_digit c || is_ascii_uppercase c) ≡ true) code

-- A way to type a code: its letters in either case, and other characters between them.
pub data Typed : Text → Text → Type 0 where
  ended : Typed [] []
  exact :
      {t code : Text} (c : ℕ)
      → (is_ascii_digit c || is_ascii_uppercase c) ≡ true
      → Typed t code
      → Typed (c ∷ t) (c ∷ code)
  lower :
      {t code : Text} (c : ℕ)
      → is_ascii_uppercase c ≡ true
      → Typed t code
      → Typed ((c + 32) ∷ t) (c ∷ code)
  other :
      {t code : Text} (c : ℕ) → is_ascii_alphanumeric c ≡ false → Typed t code → Typed (c ∷ t) code

upper_exact :
    (c : ℕ)
    → (is_ascii_digit c || is_ascii_uppercase c) ≡ true
    → (is_ascii_alphanumeric c ≡ true) × (to_ascii_uppercase c ≡ c)
upper_exact c e = ground arith

upper_lower :
    (c : ℕ)
    → is_ascii_uppercase c ≡ true
    → (is_ascii_alphanumeric (c + 32) ≡ true) × (to_ascii_uppercase (c + 32) ≡ c)
upper_lower c e = ground arith

Typed-normalize : {t code : Text} → Typed t code → normalize_pairing_code t ≡ code
unfolding normalize_pairing_code
Typed-normalize ended = refl
Typed-normalize (exact c e h) = let u = upper_exact c e in rw (u.0, u.1, Typed-normalize h) refl
Typed-normalize (lower c e h) = let u = upper_lower c e in rw (u.0, u.1, Typed-normalize h) refl
Typed-normalize (other c e h) = rw e (Typed-normalize h)

IsCode-Typed : (code : Text) → IsCode code → Typed code code
IsCode-Typed [] h = ended
IsCode-Typed (c ∷ code) h = exact c h.0 (IsCode-Typed code h.1)

dashed-Typed : (n : ℕ) (code : Text) → IsCode code → Typed (take n code ++ 45 ∷ drop n code) code
dashed-Typed zero code h = other 45 refl (IsCode-Typed code h)
dashed-Typed (suc n) [] h = other 45 refl ended
dashed-Typed (suc n) (c ∷ code) h = exact c h.0 (dashed-Typed n code h.1)

format-Typed : (code : Text) → IsCode code → Typed (format_pairing_code code) code
unfolding format_pairing_code
format-Typed code h = elim (Bool-cases (len code == pairing_len)) [
  | inl e ↦ rw e (dashed-Typed 4 code h)
  | inr e ↦ rw e (IsCode-Typed code h)
]

-- A code of capitals and digits is what comes back when it is typed as it is shown, and when it is typed
-- in either case with any characters other than letters and digits in between.
pub normalize_pairing_code-format_pairing_code :
    (code typed : Text)
    → IsCode code
    → Typed typed code
    → (normalize_pairing_code (format_pairing_code code) ≡ code)
      × (normalize_pairing_code typed ≡ code)
normalize_pairing_code-format_pairing_code code typed h t =
    (Typed-normalize (format-Typed code h), Typed-normalize t)

abbrev pub IsAscii : Text → Type 0
IsAscii t = All (λ (c : ℕ). c < 128) t

pub as_bytes-IsAscii : (t : Text) → IsAscii t → as_bytes t ≡ t
as_bytes-IsAscii [] h = refl
as_bytes-IsAscii (c ∷ t) h = rw (one, as_bytes-IsAscii t h.1) refl
  where
    one : encode c ≡ c ∷ []
    one = let k = h.0 in ground arith

pub normalize-IsAscii : (t : Text) → IsAscii (normalize_pairing_code t)
unfolding normalize_pairing_code
normalize-IsAscii [] = tt
normalize-IsAscii (c ∷ t) = elim (Bool-cases (is_ascii_alphanumeric c)) [
  | inl e ↦ rw e ((low c e), normalize-IsAscii t)
  | inr e ↦ rw e (normalize-IsAscii t)
]
  where
    low : (c : ℕ) → is_ascii_alphanumeric c ≡ true → to_ascii_uppercase c < 128
    low c e = ground arith

pub IsCode-IsAscii : (code : Text) → IsCode code → IsAscii code
IsCode-IsAscii [] h = tt
IsCode-IsAscii (c ∷ code) h = (low c h.0, IsCode-IsAscii code h.1)
  where
    low : (c : ℕ) → (is_ascii_digit c || is_ascii_uppercase c) ≡ true → c < 128
    low c e = ground arith
