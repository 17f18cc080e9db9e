-- ===== src/Clock/Switch.antt =====
-- The switch to a clock: what is pending always has a thread that waits for it, and no thread can
-- make another clock the active one, so a controller and the nodes it claims come to share a domain.
use capture_room.Prelude.{
  ℕ, ◌+◌, ◌≤◌, ◌≡◌, refl, ◌⊎◌, inl, inr, Bool, true, false, not, Option, none, some, List, [], ◌∷◌,
  String, arith, Bool-cases, All, All-mono, All-retain, All-Has, Has, Has-retain, ==_iff, sym, ap,
  subst, retain, ◌==◌, if◌then◌else◌,
}
use capture_room.Clock.{
  NodeClock, ClockClaim, ClockMode, Follow, ClockSource, claim, follow, new, begin_switch,
  make_error, same_source, awaits, is_local, set_own_mode, await_sync, is_pending, claim_unless,
  taken, claimed_source, own_source,
}
use capture_room.Clock.Calls.{Owns, set_own_mode-Owns, claim_keeps}

-- The clock of a node that has been running: its calls, and the rounds of the threads it started.
pub data Reaches : NodeClock → Type 0 where
  starts : (id : String) → Reaches (new id)
  owns :
      {c : NodeClock} (made : Option String) (mode : Option ClockMode)
      → Reaches c
      → Reaches (set_own_mode made mode c)
  claims :
      {c : NodeClock} (made : Option String) (request : ClockClaim) (address : String) (now : ℕ)
      → Reaches c
      → Reaches (claim made request address now c).0
  polls :
      {c : NodeClock} (f : Follow) (synced : Bool)
      → Has f c.waiting
      → Reaches c
      → Reaches (await_sync f synced c)

abbrev pub Sole : Option Follow → Follow → Type 0
Sole none f = Unit {0}
Sole (some p) f = f.serial ≡ p.serial → f ≡ p

abbrev pub Awaited : Follow → List Follow → Option Follow → Type 0
Awaited active waiting none = Unit {0}
Awaited active waiting (some p) =
    Has p waiting × (same_source active.source p.source ≡ false) × (is_local p.source ≡ false)

-- The waiting threads' numbers are used up, only one of them is the pending one's, and the pending
-- clock is remote, other than the active one and waited for.
pub record Switching (serial : ℕ) (active : Follow) (pending : Option Follow)
    (waiting : List Follow) : Type 0 where
  numbered : All (λ (f : Follow). f.serial ≤ serial) waiting
  sole : All (Sole pending) waiting
  pub awaited : Awaited active waiting pending

abbrev pub IsSwitching : NodeClock → Type 0
IsSwitching c = Switching c.serial c.active c.pending c.waiting

All-Unit : (xs : List Follow) → All (Sole none) xs
All-Unit [] = tt
All-Unit (x ∷ xs) = (tt, All-Unit xs)

-- Nothing pending, and perhaps one more number used up.
dropped-Switching :
    (n m : ℕ) (a b : Follow) (p : Option Follow) (w : List Follow)
    → n ≤ m
    → Switching n a p w
    → Switching m b none w
dropped-Switching n m a b p w h s = record {
  numbered = All-mono (λ f k. omega (arith, k, h)) w s.numbered;
  sole = All-Unit w;
  awaited = tt;
}

pending-Switching :
    (n : ℕ) (a : Follow) (source : ClockSource) (p : Option Follow) (w : List Follow)
    → same_source a.source source ≡ false
    → is_local source ≡ false
    → Switching n a p w
    → Switching
        (n + 1)
        a
        (some (record { source = source; serial = n + 1 }))
        ((record { source = source; serial = n + 1 }) ∷ w)
pending-Switching n a source p w d r s = record {
  numbered = (omega arith, All-mono (λ f k. omega (arith, k)) w s.numbered);
  sole = (λ e. refl, All-mono (λ f k e. absurd (omega (arith, k, e))) w s.numbered);
  awaited = (inl refl, d, r);
}

begin_switch-Switching :
    (made : Option String) (source : ClockSource) (c : NodeClock)
    → same_source c.active.source source ≡ false
    → IsSwitching c
    → IsSwitching (begin_switch made source c)
begin_switch-Switching none source c d s = elim (Bool-cases (is_local source)) [
  | inl e ↦
      rw e
        (dropped-Switching c.serial (c.serial + 1) c.active _ c.pending c.waiting (omega arith) s)
  | inr e ↦ rw e (pending-Switching c.serial c.active source c.pending c.waiting d e s)
]
begin_switch-Switching (some e) source c d s =
    dropped-Switching c.serial (c.serial + 1) c.active c.active c.pending c.waiting (omega arith) s

follow-Switching :
    (made : Option String) (source : ClockSource) (c : NodeClock)
    → IsSwitching c
    → IsSwitching (follow made source c)
unfolding follow
follow-Switching made source c s = elim (Bool-cases (same_source c.active.source source)) [
  | inl e ↦
      rw e
        (dropped-Switching c.serial c.serial c.active c.active c.pending c.waiting (omega arith) s)
  | inr e ↦ elim (Bool-cases (awaits c.pending source)) [
    | inl k ↦ rw (e, k) s
    | inr k ↦ rw (e, k) (begin_switch-Switching (make_error made source) source c e s)
  ]
]

set_own_mode-Switching :
    (made : Option String) (mode : Option ClockMode) (c : NodeClock)
    → IsSwitching c
    → IsSwitching (set_own_mode made mode c)
unfolding set_own_mode
set_own_mode-Switching made none c s = s
set_own_mode-Switching made (some mode) c s =
    follow-Switching made (own_source mode) (record c { own_mode = some mode; master = none }) s

claim-Switching :
    (made : Option String) (r : ClockClaim) (address : String) (now : ℕ) (c : NodeClock)
    → IsSwitching c
    → IsSwitching (claim made r address now c).0
unfolding claim
claim-Switching made r address now c s = claim_unless-Switching c.own_mode
  where
    claim_unless-Switching :
        (m : Option ClockMode) → IsSwitching (claim_unless m made r address now c).0
    claim_unless-Switching (some mode) = s
    claim_unless-Switching none = elim (Bool-cases (taken c.master r.controller_id now)) [
      | inl e ↦ rw e s
      | inr e ↦ rw e (
          follow-Switching made (claimed_source r address r.mode)
            (record c {
              master = some (record { id = r.controller_id; last_claim = now });
              claimed_utc_offset_us = r.utc_offset_us;
            })
            s)
    ]

Awaited-retain :
    (f : Follow) (a : Follow) (p : Option Follow) (w : List Follow)
    → is_pending p f.serial ≡ false
    → Awaited a w p
    → Awaited a (retain (λ (g : Follow). not (g.serial == f.serial)) w) p
Awaited-retain f a none w e h = tt
Awaited-retain f a (some p) w e h =
    (Has-retain (λ (g : Follow). not (g.serial == f.serial)) p w (ap not e) h.0, h.1, h.2)

await_sync-Switching :
    (f : Follow) (synced : Bool) (c : NodeClock)
    → IsSwitching c
    → IsSwitching (await_sync f synced c)
unfolding await_sync
await_sync-Switching f synced c s = elim (Bool-cases (is_pending c.pending f.serial)) [
  | inl e ↦ rw e (synced-Switching synced)
  | inr e ↦ rw e (record {
    numbered = All-retain _ _ c.waiting s.numbered;
    sole = All-retain (Sole c.pending) _ c.waiting s.sole;
    awaited = Awaited-retain f c.active c.pending c.waiting e s.awaited;
  })
]
  where
    ended : List Follow
    ended = retain (λ (g : Follow). not (g.serial == f.serial)) c.waiting

    synced-Switching :
        (b : Bool)
        → IsSwitching (
            if b
            then record c { pending = none; waiting = ended; active = f; changed = c.changed + 1 }
            else c)
    synced-Switching true = record {
      numbered = All-retain _ _ c.waiting s.numbered;
      sole = All-Unit ended;
      awaited = tt;
    }
    synced-Switching false = s

pub Reaches-Switching : (c : NodeClock) → Reaches c → IsSwitching c
unfolding new
Reaches-Switching c (starts id) = record { numbered = tt; sole = tt; awaited = tt }
Reaches-Switching c (owns {c = b} made mode r) =
    set_own_mode-Switching made mode b (Reaches-Switching b r)
Reaches-Switching c (claims {c = b} made request address now r) =
    claim-Switching made request address now b (Reaches-Switching b r)
Reaches-Switching c (polls {c = b} f synced h r) =
    await_sync-Switching f synced b (Reaches-Switching b r)

-- What a round of the thread that waits for `f` does to the clock in use: nothing, unless `f` is the
-- pending clock and has synced.
abbrev pub Follows : Follow → Bool → NodeClock → NodeClock → Type 0
Follows f synced c d =
    ((c.pending ≡ some f) × (synced ≡ true) × (d.active ≡ f) × (d.pending ≡ none))
    ⊎ ((d.active ≡ c.active) × (d.pending ≡ c.pending))

pending_is : (o : Option Follow) (f : Follow) → Sole o f → is_pending o f.serial ≡ true → o ≡ some f
pending_is none f s e = absurd (cc)
pending_is (some p) f s e = ap some (sym (s (sym ((==_iff p.serial f.serial).0 e))))

await_sync-Follows_lem :
    (f : Follow) (synced : Bool) (c : NodeClock)
    → Sole c.pending f
    → Follows f synced c (await_sync f synced c)
unfolding await_sync
await_sync-Follows_lem f synced c s = elim (Bool-cases (is_pending c.pending f.serial)) [
  | inl e ↦ by_sync synced e
  | inr e ↦ inr (rw e (refl, refl))
]
  where
    by_sync : (b : Bool) → is_pending c.pending f.serial ≡ true → Follows f b c (await_sync f b c)
    by_sync true e = inl (pending_is c.pending f s e, refl, rw e refl, rw e refl)
    by_sync false e = inr (rw e (refl, refl))

pub await_pending :
    (f : Follow) (c : NodeClock) → c.pending ≡ some f → (await_sync f true c).active ≡ f
unfolding await_sync
await_pending f c e = ground (arith, e)

-- On a node reached from its start by any calls and any rounds of its threads: a clock that is
-- pending has a thread waiting for it, whose round puts it in use once it has synced; a round of
-- a thread never changes the clock in use or the pending one, unless its own clock is the pending
-- one and has synced; a claim never changes the clock in use; and the node's own mode changes it only to the
-- local clock, at once and with nothing pending.
pub Reaches-Follows :
    (c : NodeClock)
    → Reaches c
    → ((p : Follow) → c.pending ≡ some p → Has p c.waiting × ((await_sync p true c).active ≡ p))
      × ((f : Follow) (synced : Bool)
          → Has f c.waiting
          → Follows f synced c (await_sync f synced c))
      × ((made : Option String) (r : ClockClaim) (address : String) (now : ℕ)
          → (claim made r address now c).0.active ≡ c.active)
      × ((made : Option String) (mode : Option ClockMode) → Owns mode c (set_own_mode made mode c))
Reaches-Follows c r =
    let s = Reaches-Switching c r in
    (
      λ p e. ((subst (Awaited c.active c.waiting) e s.awaited).0, await_pending p c e),
      λ f synced h. await_sync-Follows_lem f synced c (All-Has _ f c.waiting s.sole h),
      λ made r address now. claim_keeps made r address now c,
      λ made mode. set_own_mode-Owns made mode c,
    )
