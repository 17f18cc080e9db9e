-- ===== src/Scheduler/Search.antt =====
-- Lists of days and of the starts on them, and the least and the greatest of a list.
use capture_room.Prelude.{
  ℕ, zero, suc, ◌+◌, ◌-◌, ◌≤◌, ◌<◌, ◌≡◌, refl, sym, ◌∙◌, ap, subst, inl, inr, Bool, true, false,
  Option, none, some, List, [], ◌∷◌, leb, ==_iff, arith, retain, Has, if◌then◌else◌, Bool-cases,
  ◌==◌,
}
use capture_room.Scheduler.{
  days_from, days_back, keep, keep_some, smallest, largest, lesser, greater,
}

pub days_from-Has : (k n d : ℕ) → n ≤ d → d < n + k → Has d (days_from k n)
days_from-Has zero n d a b = absurd (omega (arith, a, b))
days_from-Has (suc k) n d a b = elim (Bool-cases (d == n)) [
  | inl e ↦ inl ((==_iff d n).0 e)
  | inr e ↦ inr (days_from-Has k (n + 1) d (ground (arith, e)) (omega (arith, b)))
]

pub days_back-Has : (k n d : ℕ) → d ≤ n → n < d + k → Has d (days_back k n)
days_back-Has zero n d a b = absurd (omega (arith, a, b))
days_back-Has (suc k) n d a b = elim (Bool-cases (d == n)) [
  | inl e ↦ inl ((==_iff d n).0 e)
  | inr e ↦ inr (days_back-Has k (n - 1) d (ground (arith, e)) (ground (arith, e, b)))
]

pub Has-keep_some :
    (f : ℕ → Option ℕ) (xs : List ℕ) (x y : ℕ) → Has x xs → f x ≡ some y → Has y (keep_some f xs)
Has-keep_some f [] x y h e = absurd h
Has-keep_some f (z ∷ xs) x y (inl k) e = rw (← k, e) (inl refl)
Has-keep_some f (z ∷ xs) x y (inr h) e = behind (f z) (Has-keep_some f xs x y h e)
  where
    behind : (o : Option ℕ) → Has y (keep_some f xs) → Has y (keep o (keep_some f xs))
    behind none k = k
    behind (some w) k = inr k

pub keep_some-Has :
    (f : ℕ → Option ℕ) (xs : List ℕ) (y : ℕ)
    → Has y (keep_some f xs)
    → (x : ℕ) × Has x xs × (f x ≡ some y)
keep_some-Has f [] y h = absurd h
keep_some-Has f (z ∷ xs) y h = by_value (λ h. keep_some-Has f xs y h) (f z) refl h
  where
    by_value :
        (Has y (keep_some f xs) → (x : ℕ) × Has x xs × (f x ≡ some y))
        → (o : Option ℕ) → f z ≡ o
        → Has y (keep o (keep_some f xs))
        → (x : ℕ) × Has x (z ∷ xs) × (f x ≡ some y)
    by_value rest none e h = let r = rest h in (r.0, inr r.1, r.2)
    by_value rest (some w) e (inl k) = (z, inl refl, e ∙ ap some (sym k))
    by_value rest (some w) e (inr h) = let r = rest h in (r.0, inr r.1, r.2)

pub retain-Has :
    (p : ℕ → Bool) (xs : List ℕ) (x : ℕ) → Has x (retain p xs) → Has x xs × (p x ≡ true)
retain-Has p [] x h = absurd h
retain-Has p (y ∷ xs) x h = by_test (λ h. retain-Has p xs x h) (p y) refl h
  where
    by_test :
        (Has x (retain p xs) → Has x xs × (p x ≡ true))
        → (b : Bool) → p y ≡ b
        → Has x (if b then y ∷ retain p xs else retain p xs)
        → Has x (y ∷ xs) × (p x ≡ true)
    by_test rest true e (inl k) = (inl k, ap p k ∙ e)
    by_test rest true e (inr h) = let r = rest h in (inr r.0, r.1)
    by_test rest false e h = let r = rest h in (inr r.0, r.1)

abbrev pub IsSmallest : List ℕ → Option ℕ → Type 0
IsSmallest xs none = (y : ℕ) → Has y xs → ⊥
IsSmallest xs (some s) = Has s xs × ((y : ℕ) → Has y xs → s ≤ y)

abbrev pub IsLargest : List ℕ → Option ℕ → Type 0
IsLargest xs none = (y : ℕ) → Has y xs → ⊥
IsLargest xs (some s) = Has s xs × ((y : ℕ) → Has y xs → y ≤ s)

pub smallest-IsSmallest : (xs : List ℕ) → IsSmallest xs (smallest xs)
smallest-IsSmallest [] = λ y h. h
smallest-IsSmallest (x ∷ xs) = with_rest (smallest xs) (smallest-IsSmallest xs)
  where
    with_rest : (o : Option ℕ) → IsSmallest xs o → IsSmallest (x ∷ xs) (lesser x o)
    with_rest none h = (inl refl, λ y. only y)
      where
        only : (y : ℕ) → Has y (x ∷ xs) → x ≤ y
        only y (inl e) = omega (arith, e)
        only y (inr k) = absurd (h y k)
    with_rest (some s) h = elim (Bool-cases (leb x s)) [
      | inl e ↦
          subst (λ m. IsSmallest (x ∷ xs) (some m)) (ground (arith, e)) (inl refl, λ y. low e y)
      | inr e ↦
          subst (λ m. IsSmallest (x ∷ xs) (some m)) (ground (arith, e)) (inr h.0, λ y. high e y)
    ]
      where
        low : leb x s ≡ true → (y : ℕ) → Has y (x ∷ xs) → x ≤ y
        low e y (inl k) = omega (arith, k)
        low e y (inr k) = let b = h.1 y k in ground arith

        high : leb x s ≡ false → (y : ℕ) → Has y (x ∷ xs) → s ≤ y
        high e y (inl k) = ground arith
        high e y (inr k) = h.1 y k

pub largest-IsLargest : (xs : List ℕ) → IsLargest xs (largest xs)
largest-IsLargest [] = λ y h. h
largest-IsLargest (x ∷ xs) = with_rest (largest xs) (largest-IsLargest xs)
  where
    with_rest : (o : Option ℕ) → IsLargest xs o → IsLargest (x ∷ xs) (greater x o)
    with_rest none h = (inl refl, λ y. only y)
      where
        only : (y : ℕ) → Has y (x ∷ xs) → y ≤ x
        only y (inl e) = omega (arith, e)
        only y (inr k) = absurd (h y k)
    with_rest (some s) h = elim (Bool-cases (leb s x)) [
      | inl e ↦
          subst (λ m. IsLargest (x ∷ xs) (some m)) (ground (arith, e)) (inl refl, λ y. high e y)
      | inr e ↦ subst (λ m. IsLargest (x ∷ xs) (some m)) (ground (arith, e)) (inr h.0, λ y. low e y)
    ]
      where
        high : leb s x ≡ true → (y : ℕ) → Has y (x ∷ xs) → y ≤ x
        high e y (inl k) = omega (arith, k)
        high e y (inr k) = let b = h.1 y k in ground arith

        low : leb s x ≡ false → (y : ℕ) → Has y (x ∷ xs) → y ≤ s
        low e y (inl k) = ground arith
        low e y (inr k) = h.1 y k
