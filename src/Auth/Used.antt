-- ===== src/Auth/Used.antt =====
-- A link signs in at most once, in its time.
use capture_room.Prelude.{
  ℕ, zero, suc, ◌+◌, ◌-◌, ◌≤◌, ◌≡◌, refl, ◌∙◌, ap, inl, inr, Bool, false, List, [], ◌∷◌, ◌++◌, ltb,
  if◌then◌else◌, length, retain, drop, arith, Bool-cases, length-append,
}
use capture_room.Auth.{constant_time_eq}
use capture_room.Auth.Compare.{constant_time_eq_iff}
use capture_room.Auth.Links.{
  Link, is_current, current, make_sign_in_link, is_other, take_sign_in_link,
}

-- How many links have the hash.
abbrev pub held : List ℕ → List Link → ℕ
held h [] = 0
held h (l ∷ links) = (if constant_time_eq l.hash h then 1 else 0) + held h links

held-append : (h : List ℕ) (a b : List Link) → held h (a ++ b) ≡ held h a + held h b
held-append h [] b = omega arith
held-append h (l ∷ a) b = omega (arith, held-append h a b)

held-retain :
    (h : List ℕ) (p : Link → Bool) (links : List Link) → held h (retain p links) ≤ held h links
held-retain h p [] = omega arith
held-retain h p (l ∷ links) =
    let r = held-retain h p links in
    elim (Bool-cases (p l)) [ inl e ↦ rw e (omega (arith, r)) | inr e ↦ rw e (omega (arith, r)) ]

held-drop : (h : List ℕ) (n : ℕ) (links : List Link) → held h (drop n links) ≤ held h links
held-drop h zero links = omega arith
held-drop h (suc n) [] = omega arith
held-drop h (suc n) (l ∷ links) = omega (arith, held-drop h n links)

others-length :
    (h : List ℕ) (links : List Link)
    → length (retain (is_other h) links) + held h links ≡ length links
others-length h [] = omega arith
others-length h (l ∷ links) =
    let r = others-length h links in
    elim (Bool-cases (constant_time_eq l.hash h)) [
      | inl e ↦ rw e (omega (arith, r))
      | inr e ↦ rw e (omega (arith, r))
    ]

held-others : (h : List ℕ) (links : List Link) → held h (retain (is_other h) links) ≡ 0
held-others h [] = refl
held-others h (l ∷ links) = elim (Bool-cases (constant_time_eq l.hash h)) [
  | inl e ↦ rw e (held-others h links)
  | inr e ↦ rw (e, e) (omega (arith, held-others h links))
]

-- A link is taken exactly if a current one has its hash.
take-held :
    (h : List ℕ) (now : ℕ) (links : List Link)
    → (take_sign_in_link h now links).1 ≡ ltb 0 (held h (current now links))
unfolding take_sign_in_link
take-held h now links =
    fewer (length (retain (is_other h) (current now links))) (length (current now links))
      (held h (current now links)) (others-length h (current now links))
  where
    fewer : (a b c : ℕ) → a + c ≡ b → ltb a b ≡ ltb 0 c
    fewer a b c e = ground arith

taken-held :
    (h : List ℕ) (now : ℕ) (links : List Link) → held h (take_sign_in_link h now links).0 ≡ 0
unfolding take_sign_in_link
taken-held h now links = held-others h (current now links)

current-held :
    (h : List ℕ) (now : ℕ) (links : List Link) → held h (current now links) ≤ held h links
unfolding current
current-held h now links = held-retain h (is_current now) links

taken-kept :
    (h g : List ℕ) (now : ℕ) (links : List Link)
    → held h (take_sign_in_link g now links).0 ≤ held h links
unfolding take_sign_in_link
taken-kept h g now links =
    omega (arith, held-retain h (is_other g) (current now links), current-held h now links)

make-held :
    (h g : List ℕ) (ttl now : ℕ) (links : List Link)
    → held h (make_sign_in_link ttl g now links)
      ≤ held h links + (if constant_time_eq g h then 1 else 0)
unfolding make_sign_in_link
make-held h g ttl now links =
    let all = current now links ++ record { hash = g; expires = now + ttl } ∷ [] in
    omega (
      arith,
      held-drop h (length all - 8) all,
      held-append h (current now links) (record { hash = g; expires = now + ttl } ∷ []),
      current-held h now links,
    )

-- Links made and opened, at any times.
pub data LinkStep : Type 0 where
  makes : ℕ → List ℕ → ℕ → LinkStep
  opens : List ℕ → ℕ → LinkStep

abbrev pub after : LinkStep → List Link → List Link
after (makes ttl hash now) links = make_sign_in_link ttl hash now links
after (opens hash now) links = (take_sign_in_link hash now links).0

abbrev pub made : List ℕ → List LinkStep → ℕ
made h [] = 0
made h (makes ttl hash now ∷ steps) = (if constant_time_eq hash h then 1 else 0) + made h steps
made h (opens hash now ∷ steps) = made h steps

-- How often opening a link with the hash signs in.
abbrev pub used : List ℕ → List LinkStep → List Link → ℕ
used h [] links = 0
used h (makes ttl hash now ∷ steps) links = used h steps (after (makes ttl hash now) links)
used h (opens hash now ∷ steps) links =
    (if constant_time_eq hash h then (if (take_sign_in_link hash now links).1 then 1 else 0) else 0)
    + used h steps (after (opens hash now) links)

open-used :
    (h g : List ℕ) (now : ℕ) (links : List Link)
    → (if constant_time_eq g h then (if (take_sign_in_link g now links).1 then 1 else 0) else 0)
        + held h (take_sign_in_link g now links).0
      ≤ held h links
open-used h g now links = elim (Bool-cases (constant_time_eq g h)) [
  | inl e ↦ rw e (same_hash ((constant_time_eq_iff g h).0 e))
  | inr e ↦ rw e (omega (arith, taken-kept h g now links))
]
  where
    one : (c : ℕ) → (if ltb 0 c then 1 else 0) ≤ c
    one c = ground arith

    same_hash :
        g ≡ h
        → (if (take_sign_in_link g now links).1 then 1 else 0)
            + held h (take_sign_in_link g now links).0
          ≤ held h links
    same_hash e =
        rw (e, take-held h now links, taken-held h now links)
          (omega (arith, one (held h (current now links)), current-held h now links))

-- However links are made and opened, and at whatever times, opening a link with some hash signs in at most as
-- often as a link with it was made, or was there at first.
pub used-made :
    (h : List ℕ) (steps : List LinkStep) (links : List Link)
    → used h steps links ≤ made h steps + held h links
used-made h [] links = omega arith
used-made h (makes ttl hash now ∷ steps) links = omega (
  arith,
  used-made h steps (make_sign_in_link ttl hash now links),
  make-held h hash ttl now links,
)
used-made h (opens hash now ∷ steps) links =
    omega
      (arith, used-made h steps (take_sign_in_link hash now links).0, open-used h hash now links)

length-drop : (n : ℕ) (links : List Link) → length (drop n links) ≡ length links - n
length-drop zero links = omega arith
length-drop (suc n) [] = omega arith
length-drop (suc n) (l ∷ links) = omega (arith, length-drop n links)

drop-append : (n : ℕ) (a b : List Link) → n ≤ length a → drop n (a ++ b) ≡ drop n a ++ b
drop-append zero a b h = refl
drop-append (suc n) [] b h = absurd (omega (arith, h))
drop-append (suc n) (l ∷ a) b h = drop-append n a b (omega (arith, h))

retain-append : (p : Link → Bool) (a b : List Link) → retain p (a ++ b) ≡ retain p a ++ retain p b
retain-append p [] b = refl
retain-append p (l ∷ a) b = elim (Bool-cases (p l)) [
  | inl e ↦ rw e (ap (λ t. l ∷ t) (retain-append p a b))
  | inr e ↦ rw e (retain-append p a b)
]

make-last :
    (ttl : ℕ) (h : List ℕ) (now : ℕ) (links : List Link)
    → (n : ℕ) × (make_sign_in_link ttl h now links
        ≡ drop n (current now links) ++ record { hash = h; expires = now + ttl } ∷ [])
unfolding make_sign_in_link
make-last ttl h now links =
    last (current now links) (record { hash = h; expires = now + ttl } ∷ []) (omega arith)
  where
    last :
        (a b : List Link)
        → length b ≡ 1
        → (n : ℕ) × (drop (length (a ++ b) - 8) (a ++ b) ≡ drop n a ++ b)
    last a b e = (
      length (a ++ b) - 8,
      drop-append (length (a ++ b) - 8) a b (omega (arith, e, length-append a b)),
    )

held-last :
    (h : List ℕ) (later expires : ℕ) (links : List Link)
    → held h links ≡ 0
    → ltb 0 (held h (current later (links ++ record { hash = h; expires = expires } ∷ [])))
      ≡ ltb later expires
unfolding current
held-last h later expires links e =
    rw
      (
        retain-append (is_current later) links (record { hash = h; expires = expires } ∷ []),
        held-append h (retain (is_current later) links)
            (retain (is_current later) (record { hash = h; expires = expires } ∷ [])),
      )
      (by_time _ (omega (arith, e, held-retain h (is_current later) links)))
  where
    by_time :
        (n : ℕ)
        → n ≡ 0
        → ltb 0
            (n + held h (retain (is_current later) (record { hash = h; expires = expires } ∷ [])))
          ≡ ltb later expires
    by_time n z = elim (Bool-cases (ltb later expires)) [
      | inl k ↦ rw (k, (constant_time_eq_iff h h).1 refl, z) refl
      | inr k ↦ rw (k, z) refl
    ]

make-eight :
    (ttl : ℕ) (h : List ℕ) (now : ℕ) (links : List Link)
    → length (make_sign_in_link ttl h now links) ≤ 8
unfolding make_sign_in_link
make-eight ttl h now links =
    let all = current now links ++ record { hash = h; expires = now + ttl } ∷ [] in
    omega (arith, length-drop (length all - 8) all)

-- A link made with a hash that no other link has signs in when it is opened before its time is up, not later, and
-- not a second time; and eight links at most are kept.
pub make_sign_in_link-take_sign_in_link :
    (ttl : ℕ) (h : List ℕ) (now later again : ℕ) (links : List Link)
    → held h links ≡ 0
    → let kept = make_sign_in_link ttl h now links in
      (length kept ≤ 8)
      × ((take_sign_in_link h later kept).1 ≡ ltb later (now + ttl))
      × ((take_sign_in_link h again (take_sign_in_link h later kept).0).1 ≡ false)
make_sign_in_link-take_sign_in_link ttl h now later again links e =
    (make-eight ttl h now links, once, twice)
  where
    kept : List Link
    kept = make_sign_in_link ttl h now links

    once : (take_sign_in_link h later kept).1 ≡ ltb later (now + ttl)
    once =
        let m = make-last ttl h now links in
        take-held h later kept
        ∙ rw m.1 (
            held-last h later (now + ttl) (drop m.0 (current now links))
              (omega (arith, e, held-drop h m.0 (current now links), current-held h now links)))

    twice : (take_sign_in_link h again (take_sign_in_link h later kept).0).1 ≡ false
    twice =
        take-held h again (take_sign_in_link h later kept).0
        ∙ none_left _ (
            omega (
              arith,
              taken-held h later kept,
              current-held h again (take_sign_in_link h later kept).0,
            ))
      where
        none_left : (n : ℕ) → n ≡ 0 → ltb 0 n ≡ false
        none_left n z = ground arith
