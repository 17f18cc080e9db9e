-- ===== src/Registry/Trust.antt =====
-- Every operation keeps the registry sound, so whom it trusts is known.
use capture_room.Prelude.{
  ℕ, ◌≡◌, refl, sym, ap, ◌∙◌, inl, inr, ◌||◌, Option, none, some, List, ◌∷◌, String, str_eq, arith,
  Bool-cases, get, put, delete, contains, str_eq→≡, get-put, get-put_other, get-delete_other,
  contains-exclude_other, subst,
}
use capture_room.Registry.{
  NodeEntry, FoundNodeDto, FoundNode, NodeRegistry, remove, set_found, ignore, found_failure,
  forget_key, remove_entry, is_some, ignore_found, fail_found, key_of, NodeStatus, Unreachable,
}
use capture_room.Registry.Pins.{
  Keyed, Distinct, Apart, found_put, found_delete, excluded, Sound, some_differ, differ_some,
}
use capture_room.Registry.Health.{record_success, record_failure, success_of, failure_of}

delete-Sound :
    (id : String) (entry : NodeEntry) (cancelled : List ℕ) (r : NodeRegistry)
    → get id r.entries ≡ some entry
    → Sound r
    → Sound (
        forget_key entry.fingerprint
          (record r { entries = delete id r.entries; cancelled = cancelled }))
delete-Sound id entry cancelled r g s = by_key entry.fingerprint refl
  where
    gone : NodeRegistry
    gone = record r { entries = delete id r.entries; cancelled = cancelled }

    left_distinct : Distinct (delete id r.entries)
    left_distinct i j fp d e gi gj =
        s.distinct i j fp d e (found_delete id r.entries i d gi).1
          (found_delete id r.entries j e gj).1

    left_apart : Apart (delete id r.entries) r.found
    left_apart i e f gi = s.apart i e f (found_delete id r.entries i e gi).1

    -- A key that was not the node's is another's.
    others :
        (fp : String)
        → (entry.fingerprint ≡ some fp → ⊥)
        → Keyed r.entries fp
        → Keyed (delete id r.entries) fp
    others fp n (j, e, gj, f) = elim (Bool-cases (str_eq id j)) [
      | inl d ↦ absurd (
          n (
            ap key_of
              (sym g ∙ subst (λ (x : String). get x r.entries ≡ some e) (sym (str_eq→≡ id j d)) gj)
            ∙ f))
      | inr d ↦ (j, e, get-delete_other id j r.entries d ∙ gj, f)
    ]

    by_key : (o : Option String) → entry.fingerprint ≡ o → Sound (forget_key o gone)
    by_key none k = record {
      trusts = λ fp c. others fp (λ n. absurd (cc)) (s.trusts fp c);
      pinned = λ i fp e gi. s.pinned i fp e (found_delete id r.entries i e gi).1;
      distinct = left_distinct;
      apart = left_apart;
    }
    by_key (some key) k = record {
      trusts = λ fp c.
          let x = excluded key fp r.pins c in
          others fp (λ n. some_differ key fp x.0 (sym k ∙ n)) (s.trusts fp x.1);
      pinned = λ i fp e gi f.
          let x = found_delete id r.entries i e gi in
          contains-exclude_other key fp r.pins (
            differ_some key fp
              λ n. some_differ id i x.0 (ap some (s.distinct id i fp entry e g x.1 (k ∙ n) f)))
          ∙ s.pinned i fp e x.1 f;
      distinct = left_distinct;
      apart = left_apart;
    }

pub remove-Sound : (id : String) (r : NodeRegistry) → Sound r → Sound (remove id r).0
unfolding remove
remove-Sound id r s = by_entry (get id r.entries) refl
  where
    by_entry : (o : Option NodeEntry) → get id r.entries ≡ o → Sound (remove_entry o id r).0
    by_entry none g = s
    by_entry (some e) g = delete-Sound id e (e.relay ∷ r.cancelled) r g s

-- An entry that changes in all but its key.
touch-Sound :
    (id : String) (e e' : NodeEntry) (r : NodeRegistry)
    → get id r.entries ≡ some e
    → e'.fingerprint ≡ e.fingerprint
    → Sound r
    → Sound (record r { entries = put id e' r.entries })
touch-Sound id e e' r g k s = record {
  trusts = λ fp c. kept fp (s.trusts fp c);
  pinned = λ i fp x gx f. let w = was i x gx in s.pinned i fp w.0 w.1 (w.2 ∙ f);
  distinct = λ i j fp x y gx gy f h.
      let v = was i x gx in
      let w = was j y gy in s.distinct i j fp v.0 w.0 v.1 w.1 (v.2 ∙ f) (w.2 ∙ h);
  apart = λ i x f gx. let w = was i x gx in s.apart i w.0 f w.1;
}
  where
    was :
        (j : String) (x : NodeEntry)
        → get j (put id e' r.entries) ≡ some x
        → (y : NodeEntry) × (get j r.entries ≡ some y) × (y.fingerprint ≡ x.fingerprint)
    was j x gx = elim (found_put id r.entries e' j x gx) [
      | inl a ↦ (
        e,
        subst (λ (i : String). get i r.entries ≡ some e) a.0 g,
        sym k ∙ ap (λ (y : NodeEntry). y.fingerprint) a.1,
      )
      | inr b ↦ (x, b.1, refl)
    ]

    kept : (fp : String) → Keyed r.entries fp → Keyed (put id e' r.entries) fp
    kept fp (j, x, gx, f) = elim (Bool-cases (str_eq id j)) [
      | inl d ↦
          let gj = subst (λ (i : String). get i r.entries ≡ some x) (sym (str_eq→≡ id j d)) gx in
          (id, e', get-put id e' r.entries, k ∙ ap key_of (sym g ∙ gj) ∙ f)
      | inr d ↦ (j, x, get-put_other id j e' r.entries d ∙ gx, f)
    ]

pub record_success-Sound :
    (status : NodeStatus) (r : NodeRegistry) → Sound r → Sound (record_success status r).0
unfolding record_success
record_success-Sound status r s = by_entry (get status.id r.entries) refl
  where
    by_entry :
        (o : Option NodeEntry) → get status.id r.entries ≡ o → Sound (success_of o status r).0
    by_entry none g = s
    by_entry (some e) g = touch-Sound status.id e _ r g refl s

pub record_failure-Sound :
    (id : String) (reason : Unreachable) (r : NodeRegistry)
    → Sound r
    → Sound (record_failure id reason r).0
unfolding record_failure
record_failure-Sound id reason r s = by_entry (get id r.entries) refl
  where
    by_entry : (o : Option NodeEntry) → get id r.entries ≡ o → Sound (failure_of o id reason r).0
    by_entry none g = s
    by_entry (some e) g = touch-Sound id e _ r g refl s

-- The found nodes change, but none is approved that was not found.
found-Sound :
    (found : List (String × FoundNode)) (ignored : List String) (r : NodeRegistry)
    → Apart r.entries found
    → Sound r
    → Sound (record r { found = found; ignored = ignored })
found-Sound found ignored r a s = record {
  trusts = s.trusts;
  pinned = s.pinned;
  distinct = s.distinct;
  apart = a;
}

put_found-Apart :
    (id : String) (f : FoundNode) (r : NodeRegistry)
    → ((e : NodeEntry) → get id r.entries ≡ some e → ⊥)
    → Sound r
    → Apart r.entries (put id f r.found)
put_found-Apart id f r n s i e x ge gf = elim (found_put id r.found f i x gf) [
  | inl a ↦ n e (subst (λ (j : String). get j r.entries ≡ some e) (sym a.0) ge)
  | inr b ↦ s.apart i e x ge b.1
]

pub set_found-Sound : (dto : FoundNodeDto) (r : NodeRegistry) → Sound r → Sound (set_found dto r).0
unfolding set_found
set_found-Sound dto r s =
    elim (Bool-cases (contains dto.fingerprint r.ignored || is_some (get dto.id r.entries))) [
      | inl e ↦ rw e s
      | inr e ↦ rw e (
          found-Sound _ r.ignored r
            (put_found-Apart dto.id (record { dto = dto; fail_count = 0 }) r
              (λ x g. absurd (ground (arith, e, g))) s)
            s)
    ]

pub ignore-Sound : (id : String) (r : NodeRegistry) → Sound r → Sound (ignore id r).0
unfolding ignore
ignore-Sound id r s = by_found (get id r.found)
  where
    by_found : (o : Option FoundNode) → Sound (ignore_found o id r).0
    by_found none = s
    by_found (some f) =
        found-Sound (delete id r.found) (f.dto.fingerprint ∷ r.ignored) r
          (λ i e x ge gf. s.apart i e x ge (found_delete id r.found i x gf).1) s

pub found_failure-Sound : (id : String) (r : NodeRegistry) → Sound r → Sound (found_failure id r).0
unfolding found_failure
found_failure-Sound id r s = by_found (get id r.found) refl
  where
    by_found : (o : Option FoundNode) → get id r.found ≡ o → Sound (fail_found o id r).0
    by_found none g = s
    by_found (some f) g =
        found-Sound _ r.ignored r (put_found-Apart id _ r (λ e ge. s.apart id e f ge g) s) s
