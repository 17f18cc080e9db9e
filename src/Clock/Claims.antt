-- ===== src/Clock/Claims.antt =====
-- Who is a node's master: the first controller to claim it, until it goes quiet.
use capture_room.Prelude.{
  ℕ, ◌-◌, ◌<◌, ◌≡◌, refl, inl, inr, Bool, true, false, Option, none, some, List, [], ◌∷◌, String,
  str_eq, eq_iff, arith, Bool-cases, lt→ltb, ◌∙◌, if◌then◌else◌,
}
use mathlib.Core.Path.{ap, ap₂, sym}
use capture_room.Clock.{
  NodeClock, ClockClaim, Master, claim, follow, master_timeout, accept, ClockSource, claimed_source,
}

follow_master :
    (made : Option String) (source : ClockSource) (c : NodeClock)
    → ((follow made source c).master ≡ c.master) × ((follow made source c).own_mode ≡ c.own_mode)
unfolding follow
follow_master made source c = ground arith

-- A claim, and when it arrives.
pub record Arrival : Type 0 where
  pub claim : ClockClaim
  pub address : String
  pub made : Option String
  pub now : ℕ

-- The clock after the claims, and what each was answered.
unfoldable pub answers : List Arrival → NodeClock → List Bool
answers [] c = []
answers (a ∷ rest) c = let r = claim a.made a.claim a.address a.now c in r.1 ∷ answers rest r.0

pub after_claims : List Arrival → NodeClock → NodeClock
after_claims [] c = c
after_claims (a ∷ rest) c = after_claims rest (claim a.made a.claim a.address a.now c).0

-- Whether each claim is by `id`.
abbrev pub claimed_by : String → List Arrival → List Bool
claimed_by id [] = []
claimed_by id (a ∷ rest) = str_eq id a.claim.controller_id ∷ claimed_by id rest

-- Each claim comes less than the timeout after the last one by `id`, the last so far at `last`.
abbrev pub KeepsUp : String → ℕ → List Arrival → Type 0
KeepsUp id last [] = Unit {0}
KeepsUp id last (a ∷ rest) =
    (a.now - last < master_timeout)
    × KeepsUp id (if str_eq id a.claim.controller_id then a.now else last) rest

-- `id` is the master since its claim at `last`.
record Masters (id : String) (last : ℕ) (c : NodeClock) : Type 0 where
  no_controller : c.own_mode ≡ none
  mastered : c.master ≡ some (record { id = id; last_claim = last })

accept_master :
    (made : Option String) (r : ClockClaim) (address : String) (now : ℕ) (c : NodeClock)
    → ((accept made r address now c).master
        ≡ some (record { id = r.controller_id; last_claim = now }))
      × ((accept made r address now c).own_mode ≡ c.own_mode)
accept_master made r address now c = follow_master made (claimed_source r address r.mode) _

-- How a node with a master `id` answers, by whether the claim is the master's own.
claim_its :
    (id : String) (last : ℕ) (a : Arrival) (c : NodeClock)
    → Masters id last c
    → str_eq id a.claim.controller_id ≡ true
    → claim a.made a.claim a.address a.now c ≡ (accept a.made a.claim a.address a.now c, true)
unfolding claim
claim_its id last a c m e = ground (arith, m.no_controller, m.mastered, e)

claim_other :
    (id : String) (last : ℕ) (a : Arrival) (c : NodeClock)
    → a.now - last < master_timeout
    → Masters id last c
    → str_eq id a.claim.controller_id ≡ false
    → claim a.made a.claim a.address a.now c ≡ (c, false)
unfolding claim
claim_other id last a c h m e = ground (arith, m.no_controller, m.mastered, e, lt→ltb _ _ h)

claim-Masters :
    (id : String) (last : ℕ) (a : Arrival) (c : NodeClock)
    → a.now - last < master_timeout
    → Masters id last c
    → ((claim a.made a.claim a.address a.now c).1 ≡ str_eq id a.claim.controller_id)
      × Masters id
          (if str_eq id a.claim.controller_id then a.now else last)
          (claim a.made a.claim a.address a.now c).0
claim-Masters id last a c h m = elim (Bool-cases (str_eq id a.claim.controller_id)) [
  | inl e ↦
      let kept = accept_master a.made a.claim a.address a.now c in
      simp (claim_its id last a c m e, e)
        (
          refl,
          record {
            no_controller = kept.1 ∙ m.no_controller;
            mastered =
                kept.0
                ∙ ap (λ (x : String). some (record { id = x; last_claim = a.now }))
                    (sym ((eq_iff id a.claim.controller_id).0 e));
          },
        )
  | inr e ↦
      simp (claim_other id last a c h m e, e)
        (refl, record { no_controller = m.no_controller; mastered = m.mastered })
]

-- A node that is no controller and has a master: as long as every claim, by whomever, comes less than
-- 20 s after the master's last one, each claim is accepted exactly if it is the master's, and the
-- node has no other master after them.
pub answers-claimed_by :
    (id : String) (arrivals : List Arrival) (last : ℕ) (c : NodeClock)
    → c.own_mode ≡ none
    → c.master ≡ some (record { id = id; last_claim = last })
    → KeepsUp id last arrivals
    → (answers arrivals c ≡ claimed_by id arrivals)
      × ((m : Master) → (after_claims arrivals c).master ≡ some m → m.id ≡ id)
unfolding answers after_claims
answers-claimed_by id [] last c o m k = (refl, λ n e. ground arith)
answers-claimed_by id (a ∷ rest) last c o m k =
    let (said, next) = claim-Masters id last a c k.0 (record { no_controller = o; mastered = m }) in
    let c' = (claim a.made a.claim a.address a.now c).0 in
    let ih =
      answers-claimed_by id rest (if str_eq id a.claim.controller_id then a.now else last) c'
        next.no_controller next.mastered k.1 in
    (ap₂ ◌∷◌ said ih.0, ih.1)
