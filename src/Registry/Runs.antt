-- ===== src/Registry/Runs.antt =====
-- The registry over its whole life.
use capture_room.Prelude.{◌≡◌, ◌↔◌, true, String, contains}
use capture_room.Registry.{
  NodeEntry, NodeStatus, Unreachable, FoundNodeDto, NodeRegistry, new, upsert, remove, set_found,
  ignore, found_failure,
}
use capture_room.Registry.Health.{record_success, record_failure}
use capture_room.Registry.Pins.{Keyed, Apart, Sound, IsFresh}
use capture_room.Registry.Approve.{upsert-Sound}
use capture_room.Registry.Trust.{
  remove-Sound, record_success-Sound, record_failure-Sound, set_found-Sound, ignore-Sound,
  found_failure-Sound,
}

-- A registry after any operations, in which no node is approved with a key that another approved one
-- has.
pub data Reaches : NodeRegistry → Type 0 where
  starts : Reaches new
  upserts : {r : NodeRegistry} (e : NodeEntry) → IsFresh e r → Reaches r → Reaches (upsert e r).0
  removes : {r : NodeRegistry} (id : String) → Reaches r → Reaches (remove id r).0
  finds : {r : NodeRegistry} (dto : FoundNodeDto) → Reaches r → Reaches (set_found dto r).0
  ignores : {r : NodeRegistry} (id : String) → Reaches r → Reaches (ignore id r).0
  misses : {r : NodeRegistry} (id : String) → Reaches r → Reaches (found_failure id r).0
  succeeds :
      {r : NodeRegistry} (status : NodeStatus) → Reaches r → Reaches (record_success status r).0
  fails :
      {r : NodeRegistry} (id : String) (why : Unreachable)
      → Reaches r
      → Reaches (record_failure id why r).0

Reaches-Sound : (r : NodeRegistry) → Reaches r → Sound r
unfolding new
Reaches-Sound r starts = record {
  trusts = λ fp c. absurd (cc);
  pinned = λ id fp e g. absurd (cc);
  distinct = λ i j fp d e g. absurd (cc);
  apart = λ id e f g. absurd (cc);
}
Reaches-Sound r (upserts {r = b} e f h) = upsert-Sound e b f (Reaches-Sound b h)
Reaches-Sound r (removes {r = b} id h) = remove-Sound id b (Reaches-Sound b h)
Reaches-Sound r (finds {r = b} dto h) = set_found-Sound dto b (Reaches-Sound b h)
Reaches-Sound r (ignores {r = b} id h) = ignore-Sound id b (Reaches-Sound b h)
Reaches-Sound r (misses {r = b} id h) = found_failure-Sound id b (Reaches-Sound b h)
Reaches-Sound r (succeeds {r = b} status h) = record_success-Sound status b (Reaches-Sound b h)
Reaches-Sound r (fails {r = b} id why h) = record_failure-Sound id why b (Reaches-Sound b h)

-- After any operations on the registry, of which none approves a node with a key that another
-- approved node has, the keys trusted are exactly those of the approved nodes, and no approved node
-- is offered as found.
pub Reaches-Trusts :
    (r : NodeRegistry)
    → Reaches r
    → ((fp : String) → (contains fp r.pins ≡ true) ↔ Keyed r.entries fp) × Apart r.entries r.found
Reaches-Trusts r h =
    let s = Reaches-Sound r h in (λ fp. (s.trusts fp, λ k. s.pinned k.0 fp k.1 k.2 k.3), s.apart)
