-- ===== src/Auth/Compare.antt =====
-- The comparison in constant time is equality.
use Prim.Native.Nat.{bit_or, bit_xor, digits, differ, bit_or-bitwise, bit_xor-bitwise}
use capture_room.Prelude.{
  ℕ, zero, suc, ◌/◌, ◌%◌, ◌≤◌, max, ◌≡◌, ◌↔◌, refl, sym, ◌∙◌, subst, ap, true, List, [], ◌∷◌, ◌==◌,
  ==_iff, length, arith, and_true,
}
use capture_room.Auth.{constant_time_eq, fold_differences}

differ-zero : (x y : ℕ) → differ x y ≡ 0 → x ≡ y
differ-zero zero y e = sym e
differ-zero (suc x) zero e = absurd (omega (arith, e))
differ-zero (suc x) (suc y) e = ap suc (differ-zero x y e)

differ_self : (x : ℕ) → differ x x ≡ 0
differ_self zero = refl
differ_self (suc x) = differ_self x

digits-differ : (n a b : ℕ) → a ≤ n → digits (λ b. b) differ n a b ≡ 0 → a ≡ b
digits-differ zero a b h e = omega (arith, h, e)
digits-differ (suc n) zero b h e = sym e
digits-differ (suc n) (suc a) b h e =
    let r = digits-differ n (suc a / 2) (b / 2) (omega (arith, h)) (omega (arith, e)) in
    let s = differ-zero (suc a % 2) (b % 2) (omega (arith, e)) in omega (arith, r, s)

digits-differ_self : (n a : ℕ) → a ≤ n → digits (λ b. b) differ n a a ≡ 0
digits-differ_self zero a h = omega (arith, h)
digits-differ_self (suc n) zero h = refl
digits-differ_self (suc n) (suc a) h =
    let r = digits-differ_self n (suc a / 2) (omega (arith, h)) in
    let s = differ_self (suc a % 2) in omega (arith, r, s)

digits-max : (n a b : ℕ) → a ≤ n → digits (λ b. b) max n a b ≡ 0 → (a ≡ 0) × (b ≡ 0)
digits-max zero a b h e = (omega (arith, h), e)
digits-max (suc n) zero b h e = (refl, e)
digits-max (suc n) (suc a) b h e =
    let r = digits-max n (suc a / 2) (b / 2) (omega (arith, h)) (omega (arith, e)) in
    (omega (arith, r.0, e), omega (arith, r.1, e))

bit_xor-digits : (a b : ℕ) → bit_xor a b ≡ digits (λ b. b) differ a a b
bit_xor-digits a b = bit_xor-bitwise a b

bit_or-digits : (a b : ℕ) → bit_or a b ≡ digits (λ b. b) max a a b
bit_or-digits a b = bit_or-bitwise a b

bit_xor-eq : (a b : ℕ) → bit_xor a b ≡ 0 → a ≡ b
bit_xor-eq a b e = digits-differ a a b (omega arith) (sym (bit_xor-digits a b) ∙ e)

bit_xor_self : (a : ℕ) → bit_xor a a ≡ 0
bit_xor_self a = bit_xor-digits a a ∙ digits-differ_self a a (omega arith)

bit_or-zero : (a b : ℕ) → bit_or a b ≡ 0 → (a ≡ 0) × (b ≡ 0)
bit_or-zero a b e = digits-max a a b (omega arith) (sym (bit_or-digits a b) ∙ e)

fold_differences-zero :
    (acc : ℕ) (a b : List ℕ)
    → length a ≡ length b
    → fold_differences acc a b ≡ 0
    → (acc ≡ 0) × (a ≡ b)
fold_differences-zero acc [] [] h e = (e, refl)
fold_differences-zero acc [] (y ∷ b) h e = absurd (omega (arith, h))
fold_differences-zero acc (x ∷ a) [] h e = absurd (omega (arith, h))
fold_differences-zero acc (x ∷ a) (y ∷ b) h e =
    let r = fold_differences-zero (bit_or acc (bit_xor x y)) a b (omega (arith, h)) e in
    let s = bit_or-zero acc (bit_xor x y) r.0 in (s.0, rw (bit_xor-eq x y s.1, r.1) refl)

fold_differences_self : (a : List ℕ) → fold_differences 0 a a ≡ 0
fold_differences_self [] = refl
fold_differences_self (x ∷ a) = rw (bit_xor_self x) (fold_differences_self a)

-- The comparison in constant time says yes exactly to equal bytes.
pub constant_time_eq_iff : (a b : List ℕ) → (constant_time_eq a b ≡ true) ↔ (a ≡ b)
unfolding constant_time_eq
constant_time_eq_iff a b = (only, λ e. subst (λ b. constant_time_eq a b ≡ true) e reflexive)
  where
    only : constant_time_eq a b ≡ true → a ≡ b
    only e =
        let p = and_true (length a == length b) (fold_differences 0 a b == 0) e in
        (fold_differences-zero 0 a b ((==_iff (length a) (length b)).0 p.0)
          ((==_iff (fold_differences 0 a b) 0).0 p.1)).1

    reflexive : constant_time_eq a a ≡ true
    reflexive = rw ((==_iff (length a) (length a)).1 refl, fold_differences_self a) refl
