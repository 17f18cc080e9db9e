-- ===== src/Clock/Examples.antt =====
-- Two controllers that claim one node.
use capture_room.Prelude.{
  ℕ, ◌≡◌, refl, Bool, true, false, Option, none, some, List, [], ◌∷◌, String, arith, pos, Has,
}
use capture_room.Clock.{
  ClockMode, NodeClock, ClockClaim, by_controller, claim, new, domain_of, set_own_mode, follow,
  await_sync, same_source, controller, Follow, Master,
}
use capture_room.Clock.Claims.{Arrival, answers, after_claims, claimed_by, answers-claimed_by}
use capture_room.Clock.Switch.{starts, claims, Follows, Reaches-Follows}
use capture_room.Clock.Calls.{Owns}
use capture_room.Clock.Domains.{settle, settle-agrees}

abbrev claim_by : String → ClockClaim
claim_by id = record {
  controller_id = id;
  controller_name = "Studio";
  mode = by_controller;
  port = 7410;
  utc_offset_us = some (pos 1_000);
}

abbrev by_at : String → ℕ → Arrival
by_at id now = record { claim = claim_by id; address = "10.0.0.1"; made = none; now = now }

abbrev mastered_by_a : NodeClock
mastered_by_a = record {
  node_id = "n";
  own_mode = none;
  master = some (record { id = "a"; last_claim = 0 });
  active = record { source = controller "a" "Studio" "10.0.0.1" 7410; serial = 1 };
  pending = none;
  error = none;
  serial = 1;
  claimed_utc_offset_us = some (pos 1_000);
  changed = 1;
  waiting = [];
}

abbrev three_claims : List Arrival
three_claims = by_at "b" 5_000 ∷ by_at "a" 10_000 ∷ by_at "b" 25_000 ∷ []

answers-claimed_by_example :
    (answers three_claims mastered_by_a ≡ claimed_by "a" three_claims)
    × ((m : Master) → (after_claims three_claims mastered_by_a).master ≡ some m → m.id ≡ "a")
answers-claimed_by_example =
    answers-claimed_by "a" three_claims 0 mastered_by_a refl refl
      (omega arith, (omega arith, (omega arith, tt)))

-- Once the master has been quiet for 20 s, another controller takes over.
answers_takeover :
    answers (by_at "b" 20_000 ∷ by_at "a" 21_000 ∷ []) mastered_by_a ≡ true ∷ false ∷ []
unfolding answers claim follow same_source
answers_takeover = refl

abbrev claimed_once : NodeClock
claimed_once = (claim none (claim_by "a") "10.0.0.1" 0 (new "n")).0

Reaches-Follows_example :
    ((p : Follow)
      → claimed_once.pending ≡ some p
      → Has p claimed_once.waiting × ((await_sync p true claimed_once).active ≡ p))
    × ((f : Follow) (synced : Bool)
        → Has f claimed_once.waiting
        → Follows f synced claimed_once (await_sync f synced claimed_once))
    × ((made : Option String) (r : ClockClaim) (address : String) (now : ℕ)
        → (claim made r address now claimed_once).0.active ≡ claimed_once.active)
    × ((made : Option String) (mode : Option ClockMode)
        → Owns mode claimed_once (set_own_mode made mode claimed_once))
Reaches-Follows_example =
    Reaches-Follows claimed_once (claims none (claim_by "a") "10.0.0.1" 0 (starts "n"))

settle-agrees_example :
    domain_of (settle claimed_once) ≡ domain_of (set_own_mode none (some by_controller) (new "a"))
unfolding claim follow new same_source
settle-agrees_example =
    settle-agrees none (new "a") (new "n") (claim_by "a") "10.0.0.1" 0 (starts "a") refl refl refl
