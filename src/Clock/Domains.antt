-- ===== src/Clock/Domains.antt =====
-- The domain that names a node's clock: a controller and the nodes that follow it come to the same.
use capture_room.Prelude.{
  and_true, ℕ, ◌≡◌, refl, inl, inr, true, false, Option, none, some, String, str_eq, eq_iff, arith,
  Bool-cases, ◌&&◌, ◌==◌, ==_iff, sym, ap, ◌∙◌, List,
}
use capture_room.Clock.{
  NodeClock, ClockClaim, ClockMode, by_controller, Follow, ClockSource, local, controller, ptp,
  claim, follow, same_source, awaits, set_own_mode, await_sync, accept, claim_unless, taken,
  of_controller, domain_of, domain_from,
}
use capture_room.Clock.Switch.{Reaches, Awaited, Reaches-Switching, await_pending}

-- The pending clock, if there is one, syncs.
abbrev pub settle_pending : Option Follow → NodeClock → NodeClock
settle_pending none c = c
settle_pending (some p) c = await_sync p true c

pub settle : NodeClock → NodeClock
settle c = settle_pending c.pending c

same_source_domain :
    (s : ClockSource) (i n a : String) (p : ℕ) (mode : Option ClockMode) (id : String)
    → same_source s (controller i n a p) ≡ true
    → domain_from s mode id ≡ of_controller i
unfolding same_source
same_source_domain local i n a p mode id e = absurd (cc)
same_source_domain (controller j m b q) i n a p mode id e = ap of_controller (
    (eq_iff j i).0
      (and_true (str_eq j i) (str_eq b a) (and_true (str_eq j i && str_eq b a) (q == p) e).0).0)
same_source_domain (ptp d) i n a p mode id e = absurd (cc)

same_controller :
    (i n a : String) (p : ℕ) → same_source (controller i n a p) (controller i n a p) ≡ true
unfolding same_source
same_controller i n a p = simp ((eq_iff i i).1 refl, (eq_iff a a).1 refl, (==_iff p p).1 refl) refl

settle_awaited :
    (o : Option Follow) (c : NodeClock) (i n a : String) (p : ℕ)
    → c.pending ≡ o
    → awaits o (controller i n a p) ≡ true
    → same_source (settle_pending o c).active.source (controller i n a p) ≡ true
settle_awaited none c i n a p e k = absurd (cc)
settle_awaited (some f) c i n a p e k = rw (await_pending f c e) k

settle_new :
    (f : Follow) (c : NodeClock) (i n a : String) (p : ℕ)
    → f.source ≡ controller i n a p
    → c.pending ≡ some f
    → same_source (await_sync f true c).active.source (controller i n a p) ≡ true
settle_new f c i n a p s e = rw (await_pending f c e, s) (same_controller i n a p)

-- A node that follows a controller's clock uses it once it has synced.
settle-follow :
    (c : NodeClock) (i n a : String) (p : ℕ)
    → same_source (settle (follow none (controller i n a p) c)).active.source (controller i n a p)
      ≡ true
unfolding settle follow
settle-follow c i n a p = elim (Bool-cases (same_source c.active.source (controller i n a p))) [
  | inl e ↦ rw e e
  | inr e ↦ elim (Bool-cases (awaits c.pending (controller i n a p))) [
    | inl k ↦ rw (e, k) (settle_awaited c.pending c i n a p refl k)
    | inr k ↦ rw (e, k) (settle_new _ _ i n a p refl refl)
  ]
]

settle-claim :
    (r : ClockClaim) (address : String) (now : ℕ) (c : NodeClock)
    → r.mode ≡ by_controller
    → (claim none r address now c).1 ≡ true
    → domain_of (settle (claim none r address now c).0) ≡ of_controller r.controller_id
unfolding claim domain_of
settle-claim r address now c m k = by_mode c.own_mode k
  where
    agreed : domain_of (settle (accept none r address now c)) ≡ of_controller r.controller_id
    agreed = rw m (
        let c' = record c {
          master = some (record { id = r.controller_id; last_claim = now });
          claimed_utc_offset_us = r.utc_offset_us;
        } in
        let d =
          settle (follow none (controller r.controller_id r.controller_name address r.port) c') in
        same_source_domain d.active.source r.controller_id r.controller_name address r.port
          d.own_mode d.node_id (settle-follow c' r.controller_id r.controller_name address r.port))

    by_mode :
        (o : Option ClockMode)
        → (claim_unless o none r address now c).1 ≡ true
        → domain_of (settle (claim_unless o none r address now c).0) ≡ of_controller r.controller_id
    by_mode (some mode) e = absurd (cc)
    by_mode none e = elim (Bool-cases (taken c.master r.controller_id now)) [
      | inl t ↦ absurd (ground (arith, t, e))
      | inr t ↦ rw t agreed
    ]

local_source : (s : ClockSource) → same_source s local ≡ true → s ≡ local
unfolding same_source
local_source local e = refl
local_source (controller j m b q) e = absurd (cc)
local_source (ptp d) e = absurd (cc)

awaits-local :
    (o : Option Follow) (a : Follow) (w : List Follow) → Awaited a w o → awaits o local ≡ false
unfolding same_source
awaits-local none a w h = refl
awaits-local (some p) a w h = elim (Bool-cases (same_source p.source local)) [
  | inl e ↦ absurd (ground (arith, local_source p.source e, h.2))
  | inr e ↦ e
]

-- A node that becomes a controller with its own clock runs on it at once.
own-local :
    (made : Option String) (c : NodeClock)
    → Reaches c
    → domain_of (set_own_mode made (some by_controller) c) ≡ of_controller c.node_id
unfolding set_own_mode follow domain_of
own-local made c r = elim (Bool-cases (same_source c.active.source local)) [
  | inl e ↦ rw (e, local_source c.active.source e) refl
  | inr e ↦ rw (e, awaits-local c.pending c.active c.waiting (Reaches-Switching c r).awaited) refl
]

-- A node that accepts a claim by a controller that serves its own clock, whose claim its clock could
-- be made for, comes, once the clock it then waits for (if it waits) has synced, to the domain of
-- the controller: that of the node with the claim's id, in whatever state its clock was, when it was
-- made the controller.
pub settle-agrees :
    (made : Option String) (k c : NodeClock) (r : ClockClaim) (address : String) (now : ℕ)
    → Reaches k
    → r.mode ≡ by_controller
    → r.controller_id ≡ k.node_id
    → (claim none r address now c).1 ≡ true
    → domain_of (settle (claim none r address now c).0)
      ≡ domain_of (set_own_mode made (some by_controller) k)
settle-agrees made k c r address now h m i t =
    settle-claim r address now c m t ∙ ap of_controller i ∙ sym (own-local made k h)
