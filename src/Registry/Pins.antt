-- ===== src/Registry/Pins.antt =====
-- The keys that the registry trusts, and the two lists it keeps apart.
use capture_room.Prelude.{
  ◌≡◌, refl, sym, ap, ◌∙◌, ◌⊎◌, inl, inr, true, false, Option, none, some, List, String, str_eq,
  arith, Bool-cases, get, put, delete, contains, exclude, str_refl, str_eq→≡, get-put,
  get-put_other, get-delete, get-delete_other, contains-exclude_self, contains-exclude_other, subst,
}
use capture_room.Registry.{NodeEntry, FoundNode, NodeRegistry, pin, same_key, unpin_old}

-- An approved node has the key.
abbrev pub Keyed : List (String × NodeEntry) → String → Type 0
Keyed entries fp =
    (id : String) × (e : NodeEntry) × (get id entries ≡ some e) × (e.fingerprint ≡ some fp)

abbrev pub Trusts : List (String × NodeEntry) → List String → Type 0
Trusts entries pins = (fp : String) → contains fp pins ≡ true → Keyed entries fp

-- No two approved nodes have one key.
abbrev pub Distinct : List (String × NodeEntry) → Type 0
Distinct entries =
    (i j fp : String) (d e : NodeEntry)
    → get i entries ≡ some d
    → get j entries ≡ some e
    → d.fingerprint ≡ some fp
    → e.fingerprint ≡ some fp
    → i ≡ j

abbrev pub Pinned : List (String × NodeEntry) → List String → Type 0
Pinned entries pins =
    (id fp : String) (e : NodeEntry)
    → get id entries ≡ some e
    → e.fingerprint ≡ some fp
    → contains fp pins ≡ true

abbrev pub Apart : List (String × NodeEntry) → List (String × FoundNode) → Type 0
Apart entries found =
    (id : String) (e : NodeEntry) (f : FoundNode)
    → get id entries ≡ some e
    → get id found ≡ some f
    → ⊥

-- What a lookup after a change finds: the change, or what was there before.
module _ {V : Type 0} (k : String) (m : List (String × V)) where
  pub found_put :
      (v : V) (j : String) (w : V)
      → get j (put k v m) ≡ some w
      → ((k ≡ j) × (v ≡ w)) ⊎ ((str_eq k j ≡ false) × (get j m ≡ some w))
  found_put v j w e = elim (Bool-cases (str_eq k j)) [
    | inl s ↦
        let p = str_eq→≡ k j s in
        let g = subst (λ (x : String). get x (put k v m) ≡ some v) p (get-put k v m) in inl (p, cc)
    | inr s ↦ inr (s, sym (get-put_other k j v m s) ∙ e)
  ]

  pub found_delete :
      (j : String) (w : V) → get j (delete k m) ≡ some w → (str_eq k j ≡ false) × (get j m ≡ some w)
  found_delete j w e = elim (Bool-cases (str_eq k j)) [
    | inl s ↦
        let g =
          subst (λ (x : String). get x (delete k m) ≡ none) (str_eq→≡ k j s) (get-delete k m) in
        absurd (cc)
    | inr s ↦ (s, sym (get-delete_other k j m s) ∙ e)
  ]

pub excluded :
    (k f : String) (s : List String)
    → contains f (exclude k s) ≡ true
    → (str_eq k f ≡ false) × (contains f s ≡ true)
excluded k f s e = elim (Bool-cases (str_eq k f)) [
  | inl d ↦
      let g =
        subst (λ (x : String). contains x (exclude k s) ≡ false) (str_eq→≡ k f d)
          (contains-exclude_self k s) in
      absurd (cc)
  | inr d ↦ (d, sym (contains-exclude_other k f s d) ∙ e)
]

-- What the registry keeps true of its lists.
pub record Sound (r : NodeRegistry) : Type 0 where
  pub trusts : Trusts r.entries r.pins
  pub pinned : Pinned r.entries r.pins
  pub distinct : Distinct r.entries
  pub apart : Apart r.entries r.found

-- No other approved node has the key of `entry`.
abbrev pub IsFresh : NodeEntry → NodeRegistry → Type 0
IsFresh entry r =
    (i fp : String) (e : NodeEntry)
    → get i r.entries ≡ some e
    → e.fingerprint ≡ some fp
    → entry.fingerprint ≡ some fp
    → i ≡ entry.id

pub put-Distinct :
    (entry e' : NodeEntry) (r : NodeRegistry)
    → e'.fingerprint ≡ entry.fingerprint
    → IsFresh entry r
    → Distinct r.entries
    → Distinct (put entry.id e' r.entries)
put-Distinct entry e' r same fresh h i j fp d e gi gj fi fj =
    both (found_put entry.id r.entries e' i d gi) (found_put entry.id r.entries e' j e gj)
  where
    Was : String → NodeEntry → Type 0
    Was k x =
        ((entry.id ≡ k) × (e' ≡ x)) ⊎ ((str_eq entry.id k ≡ false) × (get k r.entries ≡ some x))

    its : (x : NodeEntry) → e' ≡ x → x.fingerprint ≡ some fp → entry.fingerprint ≡ some fp
    its x p f = sym same ∙ ap (λ (y : NodeEntry). y.fingerprint) p ∙ f

    both : Was i d → Was j e → i ≡ j
    both (inl a) (inl b) = sym a.0 ∙ b.0
    both (inl a) (inr b) = sym a.0 ∙ sym (fresh j fp e b.1 fj (its d a.1 fi))
    both (inr a) (inl b) = fresh i fp d a.1 fi (its e b.1 fj) ∙ b.0
    both (inr a) (inr b) = h i j fp d e a.1 b.1 fi fj

pub put-Apart :
    (id : String) (e' : NodeEntry) (r : NodeRegistry)
    → Apart r.entries r.found
    → Apart (put id e' r.entries) (delete id r.found)
put-Apart id e' r h j e f ge gf =
    let was = found_delete id r.found j f gf in
    elim (found_put id r.entries e' j e ge) [
      | inl a ↦ absurd (differ a.0 was.0)
      | inr b ↦ h j e f b.1 was.1
    ]
  where
    differ : id ≡ j → str_eq id j ≡ false → ⊥
    differ p d = let s = subst (λ (x : String). str_eq id x ≡ true) p (str_refl id) in absurd (cc)

differ_sym : (j k : String) → str_eq j k ≡ false → str_eq k j ≡ false
differ_sym j k d = elim (Bool-cases (str_eq k j)) [
  | inl e ↦
      let s = subst (λ (x : String). str_eq x k ≡ true) (str_eq→≡ k j e) (str_refl k) in absurd (cc)
  | inr e ↦ e
]

-- `old` is the key that the node `id` had.
pub record Had (id : String) (old : Option String) (entries : List (String × NodeEntry))
    : Type 0 where
  pub only : (e : NodeEntry) → get id entries ≡ some e → e.fingerprint ≡ old
  pub held :
      (fp : String)
      → old ≡ some fp
      → (e : NodeEntry) × (get id entries ≡ some e) × (e.fingerprint ≡ some fp)

-- The keys pinned once a node has `key` for `old`.
abbrev pub repin : Option String → Option String → List String → List String
repin old key pins = unpin_old old key (pin key pins)

pin_in :
    (key : Option String) (pins : List String) (fp : String)
    → contains fp (pin key pins) ≡ true
    → (key ≡ some fp) ⊎ (contains fp pins ≡ true)
pin_in none pins fp e = inr e
pin_in (some k) pins fp e = elim (Bool-cases (str_eq k fp)) [
  | inl d ↦ inl (ap some (str_eq→≡ k fp d))
  | inr d ↦ inr (ground (arith, d, e))
]

same_key_is : (key : Option String) (o : String) → same_key key (some o) ≡ true → key ≡ some o
same_key_is none o e = absurd (cc)
same_key_is (some k) o e = ap some (str_eq→≡ k o e)

pub some_differ : (o fp : String) → str_eq o fp ≡ false → some o ≡ some fp → ⊥
some_differ o fp d n = let s = str_refl o in absurd (cc)

pub differ_some : (o fp : String) → (some o ≡ some fp → ⊥) → str_eq o fp ≡ false
differ_some o fp n = elim (Bool-cases (str_eq o fp)) [
  | inl e ↦ absurd (n (ap some (str_eq→≡ o fp e)))
  | inr e ↦ e
]

pin_keeps :
    (key : Option String) (pins : List String) (fp : String)
    → contains fp pins ≡ true
    → contains fp (pin key pins) ≡ true
pin_keeps none pins fp c = c
pin_keeps (some k) pins fp c = ground (arith, c)

pub repin_in :
    (old key : Option String) (pins : List String) (fp : String)
    → contains fp (repin old key pins) ≡ true
    → (key ≡ some fp) ⊎ ((contains fp pins ≡ true) × (old ≡ some fp → ⊥))
repin_in none key pins fp e = elim (pin_in key pins fp e) [
  | inl k ↦ inl k
  | inr c ↦ inr (c, λ n. absurd (cc))
]
repin_in (some o) key pins fp e = elim (Bool-cases (same_key key (some o))) [
  | inl d ↦ was_same (same_key_is key o d) (pin_in key pins fp (ground (arith, d, e)))
  | inr d ↦ was_other (excluded o fp (pin key pins) (ground (arith, d, e)))
]
  where
    Result : Type 0
    Result = (key ≡ some fp) ⊎ ((contains fp pins ≡ true) × (some o ≡ some fp → ⊥))

    was_same : key ≡ some o → (key ≡ some fp) ⊎ (contains fp pins ≡ true) → Result
    was_same k (inl p) = inl p
    was_same k (inr c) = elim (Bool-cases (str_eq o fp)) [
      | inl d ↦ inl (k ∙ ap some (str_eq→≡ o fp d))
      | inr d ↦ inr (c, some_differ o fp d)
    ]

    was_other : (str_eq o fp ≡ false) × (contains fp (pin key pins) ≡ true) → Result
    was_other (d, c) = elim (pin_in key pins fp c) [
      | inl p ↦ inl p
      | inr q ↦ inr (q, some_differ o fp d)
    ]

pub repin_key :
    (old : Option String) (pins : List String) (fp : String)
    → contains fp (repin old (some fp) pins) ≡ true
repin_key none pins fp = simp (str_refl fp) refl
repin_key (some o) pins fp = elim (Bool-cases (str_eq fp o)) [
  | inl e ↦ simp (e, str_refl fp) refl
  | inr e ↦ simp (e, str_refl fp) refl
]

pub repin_keeps :
    (old key : Option String) (pins : List String) (fp : String)
    → contains fp pins ≡ true
    → (old ≡ some fp → ⊥)
    → contains fp (repin old key pins) ≡ true
repin_keeps none key pins fp c n = pin_keeps key pins fp c
repin_keeps (some o) key pins fp c n = elim (Bool-cases (same_key key (some o))) [
  | inl d ↦ rw d (pin_keeps key pins fp c)
  | inr d ↦
      rw d
        (contains-exclude_other o fp (pin key pins) (differ_some o fp n) ∙ pin_keeps key pins fp c)
]
