-- ===== src/Clock/Calls.antt =====
-- What calls do to the clock in use.
use capture_room.Prelude.{ℕ, ◌≡◌, refl, ◌⊎◌, inl, inr, true, Option, none, some, String, Bool-cases}
use capture_room.Clock.{
  NodeClock, ClockClaim, ClockMode, by_controller, by_ptp, ClockSource, local, controller, ptp,
  claim, follow, begin_switch, make_error, same_source, awaits, is_local, set_own_mode,
  claim_unless, taken, claimed_source,
}

-- The clock in use stays, or a source that is local is in use at once, with nothing pending.
abbrev pub Stays : ClockSource → NodeClock → NodeClock → Type 0
Stays source c d =
    (d.active ≡ c.active) ⊎ ((source ≡ local) × (d.active.source ≡ local) × (d.pending ≡ none))

local_is : (source : ClockSource) → is_local source ≡ true → source ≡ local
local_is local e = refl
local_is (controller i n a p) e = absurd (cc)
local_is (ptp d) e = absurd (cc)

begin_switch-Stays :
    (made : Option String) (source : ClockSource) (c : NodeClock)
    → Stays source c (begin_switch made source c)
begin_switch-Stays (some e) source c = inl refl
begin_switch-Stays none source c = elim (Bool-cases (is_local source)) [
  | inl e ↦ rw e (inr (local_is source e, local_is source e, refl))
  | inr e ↦ rw e (inl refl)
]

follow-Stays :
    (made : Option String) (source : ClockSource) (c : NodeClock)
    → Stays source c (follow made source c)
unfolding follow
follow-Stays made source c = elim (Bool-cases (same_source c.active.source source)) [
  | inl e ↦ rw e (inl refl)
  | inr e ↦ elim (Bool-cases (awaits c.pending source)) [
    | inl k ↦ rw (e, k) (inl refl)
    | inr k ↦ rw (e, k) (begin_switch-Stays (make_error made source) source c)
  ]
]

-- A node's own mode puts a clock in use at once only if that is the local one.
abbrev pub Owns : Option ClockMode → NodeClock → NodeClock → Type 0
Owns mode c d =
    (d.active ≡ c.active)
    ⊎ ((mode ≡ some by_controller) × (d.active.source ≡ local) × (d.pending ≡ none))

pub set_own_mode-Owns :
    (made : Option String) (mode : Option ClockMode) (c : NodeClock)
    → Owns mode c (set_own_mode made mode c)
unfolding set_own_mode
set_own_mode-Owns made none c = inl refl
set_own_mode-Owns made (some by_controller) c =
    by_follow (follow-Stays made local (record c { own_mode = some by_controller; master = none }))
  where
    by_follow :
        Stays local c
          (follow made local (record c { own_mode = some by_controller; master = none }))
        → Owns (some by_controller) c (set_own_mode made (some by_controller) c)
    by_follow (inl e) = inl e
    by_follow (inr k) = inr (refl, k.1, k.2)
set_own_mode-Owns made (some (by_ptp n)) c =
    by_follow (follow-Stays made (ptp n) (record c { own_mode = some (by_ptp n); master = none }))
  where
    by_follow :
        Stays
          (ptp n)
          c
          (follow made (ptp n) (record c { own_mode = some (by_ptp n); master = none }))
        → Owns (some (by_ptp n)) c (set_own_mode made (some (by_ptp n)) c)
    by_follow (inl e) = inl e
    by_follow (inr k) = absurd (cc)

claimed_remote :
    (r : ClockClaim) (address : String) (mode : ClockMode)
    → ¬ (claimed_source r address mode ≡ local)
claimed_remote r address by_controller e = cc
claimed_remote r address (by_ptp n) e = cc

pub claim_keeps :
    (made : Option String) (r : ClockClaim) (address : String) (now : ℕ) (c : NodeClock)
    → (claim made r address now c).0.active ≡ c.active
unfolding claim
claim_keeps made r address now c = by_mode c.own_mode
  where
    accepted : NodeClock
    accepted = record c {
      master = some (record { id = r.controller_id; last_claim = now });
      claimed_utc_offset_us = r.utc_offset_us;
    }

    kept :
        Stays
          (claimed_source r address r.mode)
          c
          (follow made (claimed_source r address r.mode) accepted)
        → (follow made (claimed_source r address r.mode) accepted).active ≡ c.active
    kept (inl e) = e
    kept (inr k) = absurd (claimed_remote r address r.mode k.0)

    by_mode : (m : Option ClockMode) → (claim_unless m made r address now c).0.active ≡ c.active
    by_mode (some mode) = refl
    by_mode none = elim (Bool-cases (taken c.master r.controller_id now)) [
      | inl e ↦ rw e refl
      | inr e ↦ rw e (kept (follow-Stays made (claimed_source r address r.mode) accepted))
    ]
