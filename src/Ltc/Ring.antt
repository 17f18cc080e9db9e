-- ===== src/Ltc/Ring.antt =====
-- The ring of the bits' starts: after 80 bits, the oldest of them is next.
use capture_room.Prelude.{
  ℕ, zero, suc, ◌+◌, ◌%◌, ◌≤◌, ◌<◌, ◌≡◌, ◌≢◌, refl, Bool, some, List, [], ◌∷◌, get_elem?, arith,
  length, ap, subst, ◌∙◌,
}
use capture_room.Ltc.{Decoder, shift, write, Heard, hear, bit}
use capture_room.Ltc.Bits.{shifted}

-- Bits sent one after another: bit `k` starts at `at k`.
pub shifts : {F : Type 0} → (ℕ → ℕ) → ℕ → List Bool → Decoder F → Decoder F
shifts at k [] d = d
shifts at k (b ∷ bs) d = shifts at (k + 1) bs (shift (at k) b d)

-- What the last of them gives, each ending where the next starts.
unfoldable pub last_heard : {F : Type 0} → (ℕ → ℕ) → ℕ → List Bool → Heard → Decoder F → Heard
last_heard at k [] before d = before
last_heard at k (b ∷ bs) before d =
    let r = bit (at k) b (at (k + 1)) d in last_heard at (k + 1) bs r.1 r.0

module _ {A : Type 0} where
  pub length-write : (i : ℕ) (a : A) (xs : List A) → length (write i a xs) ≡ length xs
  length-write i a [] = refl
  length-write zero a (x ∷ xs) = refl
  length-write (suc i) a (x ∷ xs) = omega (arith, length-write i a xs)

  get-write : (i : ℕ) (a : A) (xs : List A) → i < length xs → get_elem? (write i a xs) i ≡ some a
  get-write i a [] h = absurd (omega (arith, h))
  get-write zero a (x ∷ xs) h = refl
  get-write (suc i) a (x ∷ xs) h = get-write i a xs (omega (arith, h))

  get-write_other :
      (i j : ℕ) (a : A) (xs : List A) → i ≢ j → get_elem? (write i a xs) j ≡ get_elem? xs j
  get-write_other i j a [] n = refl
  get-write_other zero zero a (x ∷ xs) n = absurd (n refl)
  get-write_other zero (suc j) a (x ∷ xs) n = refl
  get-write_other (suc i) zero a (x ∷ xs) n = refl
  get-write_other (suc i) (suc j) a (x ∷ xs) n = get-write_other i j a xs (λ e. n (ap suc e))

-- After `k` of the bits, of which the first started at `first` and stands at `p`.
pub record Turned {F : Type 0} (p first k : ℕ) (d : Decoder F) : Type 0 where
  pub at_p : get_elem? d.starts p ≡ some first
  pub turned : d.next ≡ (p + k) % 80
  pub in_ring : length d.starts ≡ 80
  pub ran : k ≤ d.run

shift-Turned :
    {F : Type 0} (p first k start : ℕ) (b : Bool) (d : Decoder F)
    → p < 80
    → 1 ≤ k
    → k ≤ 79
    → Turned p first k d
    → Turned p first (k + 1) (shift start b d)
unfolding shift
shift-Turned p first k start b d hp lo hk t = record {
  at_p =
      get-write_other d.next p start d.starts (λ e. absurd (omega (arith, t.turned, e, hp, hk, lo)))
      ∙ t.at_p;
  turned = omega (arith, t.turned);
  in_ring = length-write d.next start d.starts ∙ t.in_ring;
  ran = omega (arith, t.ran, hk);
}

shifts-Turned :
    {F : Type 0} (at : ℕ → ℕ) (p first k : ℕ) (bs : List Bool) (d : Decoder F)
    → p < 80
    → 1 ≤ k
    → k + length bs ≤ 80
    → Turned p first k d
    → Turned p first (k + length bs) (shifts at k bs d)
unfolding shifts
shifts-Turned at p first k [] d hp lo hk t = subst (λ (n : ℕ). Turned p first n d) (omega arith) t
shifts-Turned at p first k (b ∷ bs) d hp lo hk t =
    subst (λ (n : ℕ). Turned p first n (shifts at (k + 1) bs (shift (at k) b d))) (omega arith)
      (shifts-Turned at p first (k + 1) bs (shift (at k) b d) hp (omega arith) (omega (arith, hk))
        (shift-Turned p first k (at k) b d hp lo (omega (arith, hk)) t))

-- The ring that takes the bits from a decoder in any state.
pub start-Turned :
    {F : Type 0} (at : ℕ → ℕ) (b : Bool) (bs : List Bool) (d : Decoder F)
    → length bs ≡ 79
    → d.next < 80
    → length d.starts ≡ 80
    → Turned d.next (at 0) 80 (shifts at 0 (b ∷ bs) d)
unfolding shifts shift
start-Turned at b bs d l h k =
    subst (λ (n : ℕ). Turned d.next (at 0) n (shifts at 1 bs (shift (at 0) b d))) (omega (arith, l))
      (shifts-Turned at d.next (at 0) 1 bs (shift (at 0) b d) h (omega arith) (omega (arith, l))
        (record {
          at_p = get-write d.next (at 0) d.starts (omega (arith, h, k));
          turned = refl;
          in_ring = length-write d.next (at 0) d.starts ∙ k;
          ran = omega arith;
        }))

pub shifts_window :
    {F : Type 0} (at : ℕ → ℕ) (k : ℕ) (bs : List Bool) (d : Decoder F)
    → (shifts at k bs d).window ≡ shifted bs d.window
unfolding shifts shifted shift
shifts_window at k [] d = refl
shifts_window at k (b ∷ bs) d = shifts_window at (k + 1) bs (shift (at k) b d)

pub last_heard-hear :
    {F : Type 0} (at : ℕ → ℕ) (k : ℕ) (b : Bool) (bs : List Bool) (before : Heard) (d : Decoder F)
    → last_heard at k (b ∷ bs) before d ≡ hear (at (k + suc (length bs))) (shifts at k (b ∷ bs) d)
unfolding last_heard shifts
last_heard-hear at k b [] before d = refl
last_heard-hear at k b (c ∷ bs) before d =
    last_heard-hear at (k + 1) c bs (hear (at (k + 1)) (shift (at k) b d)) (shift (at k) b d)
    ∙ ap (λ (n : ℕ). hear (at n) (shifts at (k + 1) (c ∷ bs) (shift (at k) b d))) (omega arith)
