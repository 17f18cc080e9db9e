-- ===== src/Auth/Tries.antt =====
-- How often a pairing code can be guessed at.
use capture_room.Prelude.{
  ℕ, zero, suc, ◌+◌, ◌≡◌, ◌≢◌, refl, sym, ◌∙◌, ap, inl, inr, Bool, true, false, List, [], ◌∷◌, min,
  ltb, leb, if◌then◌else◌, All, arith, length, Bool-cases, ◌==◌,
}
use capture_room.Auth.Utf8.{Text, as_bytes}
use capture_room.Auth.{
  Pairing, Attempt, right, wrong, exhausted, fresh, is_empty, attempt, pairing_attempts,
  normalize_pairing_code, constant_time_eq,
}
use capture_room.Auth.Compare.{constant_time_eq_iff}
use capture_room.Auth.Codes.{IsCode, as_bytes-IsAscii, normalize-IsAscii, IsCode-IsAscii}

-- Codes presented one after the other, and the answers.
abbrev pub attempt_all : List Text → Pairing → Pairing × List Attempt
attempt_all [] p = (p, [])
attempt_all (t ∷ ts) p =
    let r = attempt t p in let rest = attempt_all ts r.0 in (rest.0, r.1 ∷ rest.1)

abbrev pub is_code : Text → Text → Bool
is_code t code = constant_time_eq (as_bytes (normalize_pairing_code t)) (as_bytes code)

pub is_code-true :
    (t code : Text) → IsCode code → normalize_pairing_code t ≡ code → is_code t code ≡ true
is_code-true t code h e = (constant_time_eq_iff _ _).1 (ap as_bytes e)

pub is_code-≡ :
    (t code : Text) → IsCode code → is_code t code ≡ true → normalize_pairing_code t ≡ code
is_code-≡ t code h e =
    sym (as_bytes-IsAscii (normalize_pairing_code t) (normalize-IsAscii t))
    ∙ (constant_time_eq_iff _ _).0 e
    ∙ as_bytes-IsAscii code (IsCode-IsAscii code h)

-- The answers to so many wrong codes after n of them: the fifth uses the code up.
abbrev pub replies : ℕ → ℕ → List Attempt
replies n zero = []
replies n (suc k) = (if n == 4 then exhausted else wrong) ∷ replies (n + 1) k

abbrev pub tried : ℕ → Text → Pairing
tried n code = record { code = code; failures = min n 5 }

spent : (n : ℕ) → leb pairing_attempts (min n 5) ≡ leb 5 n
spent n = ground arith

attempt-wrong :
    (n : ℕ) (t code : Text)
    → is_empty code ≡ false
    → is_code t code ≡ false
    → (attempt t (tried n code)).0 ≡ tried (n + 1) code
unfolding attempt
attempt-wrong n t code e h = elim (Bool-cases (leb 5 n)) [
  | inl k ↦ rw (e, spent n, k) (ap (λ m. record { code = code; failures = m }) (ground arith))
  | inr k ↦ rw (e, spent n, k, h) (ap (λ m. record { code = code; failures = m }) (ground arith))
]

attempt-reply :
    (n : ℕ) (t code : Text)
    → is_empty code ≡ false
    → is_code t code ≡ false
    → (attempt t (tried n code)).1 ≡ (if n == 4 then exhausted else wrong)
unfolding attempt
attempt-reply n t code e h = elim (Bool-cases (leb 5 n)) [
  | inl k ↦ rw (e, spent n, k, late k) refl
  | inr k ↦ rw (e, spent n, k, h, last k) refl
]
  where
    late : leb 5 n ≡ true → (n == 4) ≡ false
    late k = ground arith

    last : leb 5 n ≡ false → leb pairing_attempts (min n 5 + 1) ≡ (n == 4)
    last k = ground arith

attempt-right :
    (n : ℕ) (t code : Text)
    → is_empty code ≡ false
    → is_code t code ≡ true
    → (attempt t (tried n code)).1 ≡ (if ltb n 5 then right else wrong)
unfolding attempt
attempt-right n t code e h = elim (Bool-cases (leb 5 n)) [
  | inl k ↦ rw (e, spent n, k, late k) refl
  | inr k ↦ rw (e, spent n, k, h, early k) refl
]
  where
    late : leb 5 n ≡ true → ltb n 5 ≡ false
    late k = ground arith

    early : leb 5 n ≡ false → ltb n 5 ≡ true
    early k = ground arith

abbrev pub NoneRight : Text → List Text → Type 0
NoneRight code ts = All (λ (t : Text). normalize_pairing_code t ≢ code) ts

wrong_code :
    (t code : Text) → IsCode code → normalize_pairing_code t ≢ code → is_code t code ≡ false
wrong_code t code h n = elim (Bool-cases (is_code t code)) [
  | inl e ↦ absurd (n (is_code-≡ t code h e))
  | inr e ↦ e
]

attempt_all-tried :
    (n : ℕ) (ts : List Text) (code : Text)
    → is_empty code ≡ false
    → IsCode code
    → NoneRight code ts
    → ((attempt_all ts (tried n code)).0 ≡ tried (n + length ts) code)
      × ((attempt_all ts (tried n code)).1 ≡ replies n (length ts))
attempt_all-tried n [] code e h a = (ap (λ m. tried m code) (omega arith), refl)
attempt_all-tried n (t ∷ ts) code e h a =
    let w = wrong_code t code h a.0 in
    let rest = attempt_all-tried (n + 1) ts code e h a.1 in
    rw (attempt-wrong n t code e w, attempt-reply n t code e w)
      (
        rest.0 ∙ ap (λ m. tried m code) (omega arith),
        ap (λ l. (if n == 4 then exhausted else wrong) ∷ l) rest.1,
      )

-- Wrong codes presented for a new code of capitals and digits are all answered as wrong but the fifth, which
-- is answered as the one that uses the code up; and then the right code is accepted exactly if fewer
-- than five were wrong.
pub attempt_all-replies :
    (code t : Text) (ts : List Text)
    → is_empty code ≡ false
    → IsCode code
    → NoneRight code ts
    → normalize_pairing_code t ≡ code
    → ((attempt_all ts (fresh code)).1 ≡ replies 0 (length ts))
      × ((attempt t (attempt_all ts (fresh code)).0).1
          ≡ (if ltb (length ts) 5 then right else wrong))
attempt_all-replies code t ts e h a r =
    let all = attempt_all-tried 0 ts code e h a in
    (
      all.1,
      rw all.0 (
          attempt-right (0 + length ts) t code e (is_code-true t code h r)
          ∙ ap (λ n. if ltb n 5 then right else wrong) (omega arith)),
    )
