-- ===== src/Registry/Approve.antt =====
-- Approving a node keeps the registry sound.
use capture_room.Prelude.{
  ◌≡◌, refl, sym, ap, ◌∙◌, inl, inr, true, false, Option, none, some, String, str_eq, Bool-cases,
  get, put, delete, contains, str_eq→≡, get-put, get-put_other, subst,
}
use capture_room.Registry.{NodeEntry, NodeRegistry, upsert, pin, put_entry, key_of}
use capture_room.Registry.Pins.{
  Keyed, found_put, Sound, IsFresh, put-Distinct, put-Apart, some_differ, Had, repin, repin_in,
  repin_key, repin_keeps,
}

-- A node that is approved, or approved again: its key is pinned for the one it had.
put-Sound :
    (entry e' : NodeEntry) (old : Option String) (r : NodeRegistry)
    → e'.fingerprint ≡ entry.fingerprint
    → IsFresh entry r
    → Had entry.id old r.entries
    → Sound r
    → Sound (record r {
      found = delete entry.id r.found;
      pins = repin old entry.fingerprint r.pins;
      entries = put entry.id e' r.entries;
    })
put-Sound entry e' old r same fresh had s = record {
  trusts = λ fp c. elim (repin_in old entry.fingerprint r.pins fp c) [
    | inl k ↦ (entry.id, e', get-put entry.id e' r.entries, same ∙ k)
    | inr k ↦ elsewhere fp k.1 (s.trusts fp k.0)
  ];
  pinned = λ id fp e g f. elim (found_put entry.id r.entries e' id e g) [
    | inl a ↦ its fp e a.1 f
    | inr b ↦
        repin_keeps old entry.fingerprint r.pins fp (s.pinned id fp e b.1 f)
          (λ n. other id fp e b.0 b.1 f (had.held fp n))
  ];
  distinct = put-Distinct entry e' r same fresh s.distinct;
  apart = put-Apart entry.id e' r s.apart;
}
  where
    elsewhere :
        (fp : String)
        → (old ≡ some fp → ⊥)
        → Keyed r.entries fp
        → Keyed (put entry.id e' r.entries) fp
    elsewhere fp n (id, e, g, f) = elim (Bool-cases (str_eq entry.id id)) [
      | inl d ↦
          let g' =
            subst (λ (x : String). get x r.entries ≡ some e) (sym (str_eq→≡ entry.id id d)) g in
          absurd (n (sym (had.only e g') ∙ f))
      | inr d ↦ (id, e, get-put_other entry.id id e' r.entries d ∙ g, f)
    ]

    its :
        (fp : String) (e : NodeEntry)
        → e' ≡ e
        → e.fingerprint ≡ some fp
        → contains fp (repin old entry.fingerprint r.pins) ≡ true
    its fp e p f =
        let k = sym same ∙ ap (λ (y : NodeEntry). y.fingerprint) p ∙ f in
        subst (λ (o : Option String). contains fp (repin old o r.pins) ≡ true) (sym k)
          (repin_key old r.pins fp)

    other :
        (id fp : String) (e : NodeEntry)
        → str_eq entry.id id ≡ false
        → get id r.entries ≡ some e
        → e.fingerprint ≡ some fp
        → ((x : NodeEntry) × (get entry.id r.entries ≡ some x) × (x.fingerprint ≡ some fp))
        → ⊥
    other id fp e d g f (x, gx, fx) =
        some_differ entry.id id d (ap some (s.distinct entry.id id fp x e gx g fx f))

pub upsert-Sound :
    (entry : NodeEntry) (r : NodeRegistry) → IsFresh entry r → Sound r → Sound (upsert entry r).0
unfolding upsert
upsert-Sound entry r fresh s = put (get entry.id r.entries) refl
  where
    base : NodeRegistry
    base = record r { found = delete entry.id r.found; pins = pin entry.fingerprint r.pins }

    put : (o : Option NodeEntry) → get entry.id r.entries ≡ o → Sound (put_entry o entry base).0
    put none g =
        put-Sound entry entry none r refl fresh
          (record { only = λ e k. absurd (cc); held = λ fp k. absurd (cc) }) s
    put (some x) g =
        put-Sound entry (record entry { relay = x.relay }) x.fingerprint r refl fresh
          (record { only = λ e k. ap key_of (sym k ∙ g); held = λ fp k. (x, g, k) }) s
