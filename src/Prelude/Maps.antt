-- ===== src/Prelude/Maps.antt =====
-- A map from strings as an association list, and a set of strings as a list.
use Prim.Native.String.{String}
use mathlib.Core.Path.{◌≡◌, refl, subst}
use mathlib.Core.Logic.{inl, inr}
use mathlib.Core.Bool.{Bool, true, false, not}
use mathlib.Core.List.{List, [], ◌∷◌}
use mathlib.Core.Option.{Option, none, some}
use text.Mathlib.TextEquality.{eq_iff}
use text.Mathlib.Text.{◌==◌ as str_eq}
use capture_room.Prelude.Tests.{if◌then◌else◌, Bool-cases}
use capture_room.Prelude.Lists.{retain, any}

module _ {V : Type 0} where
  abbrev pub get : String → List (String × V) → Option V
  get k [] = none
  get k ((j, v) ∷ m) = let rest = get k m in if str_eq j k then some v else rest

  abbrev pub put : String → V → List (String × V) → List (String × V)
  put k v [] = (k, v) ∷ []
  put k v ((j, w) ∷ m) = let rest = put k v m in if str_eq j k then (k, v) ∷ m else (j, w) ∷ rest

  abbrev pub delete : String → List (String × V) → List (String × V)
  delete k = retain (λ (e : String × V). not (str_eq e.0 k))

abbrev pub contains : String → List String → Bool
contains k = any (λ j. str_eq j k)

abbrev pub exclude : String → List String → List String
exclude k = retain (λ (j : String). not (str_eq j k))

pub str_refl : (k : String) → str_eq k k ≡ true
str_refl k = (eq_iff k k).1 refl

pub str_eq→≡ : (j k : String) → str_eq j k ≡ true → j ≡ k
str_eq→≡ j k = (eq_iff j k).0

pub str_true_sym : (j k : String) → str_eq j k ≡ true → str_eq k j ≡ true
str_true_sym j k e = subst (λ (x : String). str_eq x j ≡ true) (str_eq→≡ j k e) (str_refl j)

module _ {V : Type 0} where
  pub get-put : (k : String) (v : V) (m : List (String × V)) → get k (put k v m) ≡ some v
  get-put k v [] = simp (str_refl k) refl
  get-put k v ((j, w) ∷ m) = elim (Bool-cases (str_eq j k)) [
    | inl e ↦ rw (e, str_refl k) refl
    | inr e ↦ rw (e, e) (get-put k v m)
  ]

  pub get-put_other :
      (k j : String) (v : V) (m : List (String × V))
      → str_eq k j ≡ false
      → get j (put k v m) ≡ get j m
  get-put_other k j v [] d = simp d refl
  get-put_other k j v ((i, w) ∷ m) d = elim (Bool-cases (str_eq i k)) [
    | inl e ↦ rw (e, d, str_eq→≡ i k e, d) refl
    | inr e ↦ rw (e, get-put_other k j v m d) refl
  ]

  pub get-delete : (k : String) (m : List (String × V)) → get k (delete k m) ≡ none
  get-delete k [] = refl
  get-delete k ((j, w) ∷ m) = elim (Bool-cases (str_eq j k)) [
    | inl e ↦ rw e (get-delete k m)
    | inr e ↦ rw (e, e) (get-delete k m)
  ]

  pub get-delete_other :
      (k j : String) (m : List (String × V)) → str_eq k j ≡ false → get j (delete k m) ≡ get j m
  get-delete_other k j [] d = refl
  get-delete_other k j ((i, w) ∷ m) d = elim (Bool-cases (str_eq i k)) [
    | inl e ↦ rw (e, str_eq→≡ i k e, d) (get-delete_other k j m d)
    | inr e ↦ rw (e, get-delete_other k j m d) refl
  ]

pub contains-exclude_self : (k : String) (s : List String) → contains k (exclude k s) ≡ false
contains-exclude_self k [] = refl
contains-exclude_self k (j ∷ s) = elim (Bool-cases (str_eq j k)) [
  | inl e ↦ rw e (contains-exclude_self k s)
  | inr e ↦ rw (e, e) (contains-exclude_self k s)
]

pub contains-exclude_other :
    (k f : String) (s : List String) → str_eq k f ≡ false → contains f (exclude k s) ≡ contains f s
contains-exclude_other k f [] d = refl
contains-exclude_other k f (j ∷ s) d = elim (Bool-cases (str_eq j k)) [
  | inl e ↦ rw (e, str_eq→≡ j k e, d) (contains-exclude_other k f s d)
  | inr e ↦ rw (e, contains-exclude_other k f s d) refl
]
