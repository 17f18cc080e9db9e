-- ===== src/Auth/Random.antt =====
-- Random strings: they come out whole, and no character is favoured.
use native.Mathlib.Nat.{mod-lt, mod-eq_of_lt, add-mod_left, div-add-mod}
use capture_room.Prelude.{
  ℕ, zero, suc, ◌+◌, ◌-◌, ◌*◌, ◌/◌, ◌%◌, ◌≤◌, ◌<◌, ◌≡◌, refl, subst, ◌∙◌, ap, inl, inr, Bool, true,
  false, Option, none, some, List, [], ◌∷◌, lt→ltb, ltb, ◌==◌, if◌then◌else◌, All, Has, arith,
  length, get_elem?,
}
use capture_room.Auth.Utf8.{Text}
use capture_room.Auth.{pick, push_char, draw_with, random_string}

abbrev pub usable : Option ℕ → ℕ
usable none = 0
usable (some i) = 1

-- How many of the bytes are not skipped.
abbrev pub usable_bytes : ℕ → List ℕ → ℕ
usable_bytes k [] = 0
usable_bytes k (b ∷ bytes) = usable (pick k b) + usable_bytes k bytes

get_elem?-Has : (xs : Text) (i : ℕ) → i < length xs → (x : ℕ) × (get_elem? xs i ≡ some x) × Has x xs
get_elem?-Has [] i h = absurd (omega (arith, h))
get_elem?-Has (x ∷ xs) zero h = (x, refl, inl refl)
get_elem?-Has (x ∷ xs) (suc i) h =
    let r = get_elem?-Has xs i (omega (arith, h)) in (r.0, r.1, inr r.2)

picked : (k b i : ℕ) (c : Bool) → (if c then some (b % k) else none) ≡ some i → b % k ≡ i
picked k b i true e = cc
picked k b i false e = absurd (cc)

pick_below : (k b i : ℕ) → 0 < k → pick k b ≡ some i → i < k
pick_below k b i h e = subst (λ j. j < k) (picked k b i _ e) (mod-lt b h)

-- The text is of the length asked for, of characters of the alphabet.
abbrev pub IsDrawn : Text → ℕ → Option Text → Type 0
IsDrawn alphabet n none = ⊥
IsDrawn alphabet n (some t) = (length t ≡ n) × All (λ (c : ℕ). Has c alphabet) t

push_char-IsDrawn :
    (alphabet : Text) (n i : ℕ) (o : Option Text)
    → i < length alphabet
    → IsDrawn alphabet n o
    → IsDrawn alphabet (suc n) (push_char (get_elem? alphabet i) o)
push_char-IsDrawn alphabet n i none l h = absurd h
push_char-IsDrawn alphabet n i (some t) l h =
    let g = get_elem?-Has alphabet i l in rw g.1 (ap suc h.0, (g.2, h.1))

-- From a non-empty alphabet, enough bytes that are not skipped give a text of the length asked for, all of it from
-- the alphabet.
pub random_string-IsDrawn :
    (alphabet : Text) (n : ℕ) (bytes : List ℕ)
    → 0 < length alphabet
    → n ≤ usable_bytes (length alphabet) bytes
    → IsDrawn alphabet n (random_string alphabet n bytes)
unfolding random_string
random_string-IsDrawn alphabet zero bytes p h = (refl, tt)
random_string-IsDrawn alphabet (suc n) [] p h = absurd (omega (arith, h))
random_string-IsDrawn alphabet (suc n) (b ∷ bytes) p h =
    by_pick (λ k. random_string-IsDrawn alphabet (suc n) bytes p k)
      (λ k. random_string-IsDrawn alphabet n bytes p k) (pick (length alphabet) b) refl h
  where
    by_pick :
        (suc n ≤ usable_bytes (length alphabet) bytes
          → IsDrawn alphabet (suc n) (random_string alphabet (suc n) bytes))
        → (n ≤ usable_bytes (length alphabet) bytes
            → IsDrawn alphabet n (random_string alphabet n bytes))
        → (o : Option ℕ) → pick (length alphabet) b ≡ o
        → suc n ≤ usable o + usable_bytes (length alphabet) bytes
        → IsDrawn alphabet (suc n) (
            draw_with o alphabet
              (random_string alphabet (suc n) bytes)
              (random_string alphabet n bytes))
    by_pick longer rest none e h = longer (omega (arith, h))
    by_pick longer rest (some i) e h =
        push_char-IsDrawn alphabet n i (random_string alphabet n bytes)
          (pick_below (length alphabet) b i p e) (rest (omega (arith, h)))

-- How many numbers below n pass.
abbrev pub count_below : ℕ → (ℕ → Bool) → ℕ
count_below zero p = 0
count_below (suc n) p = (if p n then 1 else 0) + count_below n p

abbrev pub is_index : ℕ → Option ℕ → Bool
is_index i none = false
is_index i (some j) = j == i

mul_suc : (k q : ℕ) → k * suc q ≡ k + k * q
mul_suc k q = grind arith

same_rest : (k m n : ℕ) → m ≡ n → m % k ≡ n % k
same_rest k m n e = ap (λ n. n % k) e

mod_block : (k q j : ℕ) → j < k → (k * q + j) % k ≡ j
mod_block k zero j h = same_rest k (k * 0 + j) j (grind arith) ∙ mod-eq_of_lt h
mod_block k (suc q) j h =
    same_rest k (k * suc q + j) (k + (k * q + j)) (rw (mul_suc k q) (omega arith))
    ∙ add-mod_left k (k * q + j)
    ∙ mod_block k q j h

pick_block :
    (k q j i : ℕ) → j < k → k * q + j < 256 - 256 % k → is_index i (pick k (k * q + j)) ≡ (j == i)
pick_block k q j i h l = rw (lt→ltb (k * q + j) (256 - 256 % k) l, mod_block k q j h) refl

abbrev pub picks : ℕ → ℕ → ℕ → Bool
picks k i b = is_index i (pick k b)

same_count : (k i m n : ℕ) → m ≡ n → count_below m (picks k i) ≡ count_below n (picks k i)
same_count k i m n e = ap (λ n. count_below n (picks k i)) e

step :
    (j i : ℕ)
    → (if j == i then 1 else 0) + (if ltb i j then 1 else 0) ≡ (if ltb i (suc j) then 1 else 0)
step j i = ground arith

count_row :
    (k q i : ℕ)
    → count_below (k * q) (picks k i) ≡ q
    → (j : ℕ) → j ≤ k
    → k * q + j ≤ 256 - 256 % k
    → count_below (k * q + j) (picks k i) ≡ q + (if ltb i j then 1 else 0)
count_row k q i e zero h l = same_count k i (k * q + 0) (k * q) (omega arith) ∙ e ∙ ground arith
count_row k q i e (suc j) h l =
    let r = count_row k q i e j (omega (arith, h)) (omega (arith, l)) in
    let s = step j i in
    same_count k i (k * q + suc j) (suc (k * q + j)) (omega arith)
    ∙ rw (pick_block k q j i (omega (arith, h)) (omega (arith, l)), r) (omega (arith, s))

count_rows : (k i q : ℕ) → i < k → k * q ≤ 256 - 256 % k → count_below (k * q) (picks k i) ≡ q
count_rows k i zero h l = same_count k i (k * 0) 0 (grind arith)
count_rows k i (suc q) h l =
    let m = mul_suc k q in
    let base = count_rows k i q h (omega (arith, l, m)) in
    same_count k i (k * suc q) (k * q + k) (omega (arith, m))
    ∙ count_row k q i base k (omega arith) (omega (arith, l, m))
    ∙ rw (lt→ltb i k h) (omega arith)

count_skipped :
    (k i n d : ℕ) → n ≡ 256 - 256 % k → count_below (n + d) (picks k i) ≡ count_below n (picks k i)
count_skipped k i n zero e = same_count k i (n + 0) n (omega arith)
count_skipped k i n (suc d) e =
    same_count k i (n + suc d) (suc (n + d)) (omega arith)
    ∙ rw (skipped) (omega (arith, count_skipped k i n d e))
  where
    skipped : ltb (n + d) (256 - 256 % k) ≡ false
    skipped = ground (arith, e)

-- Over all bytes, each index into an alphabet of k characters is picked by exactly 256 / k of them, so that no
-- character is favoured.
pub pick-fair : (k i : ℕ) → i < k → count_below 256 (picks k i) ≡ 256 / k
pick-fair k i h =
    let m = div-add-mod 256 k in
    same_count k i 256 (k * (256 / k) + 256 % k) (omega (arith, m))
    ∙ count_skipped k i (k * (256 / k)) (256 % k) (omega (arith, m))
    ∙ count_rows k i (256 / k) h (omega (arith, m))
