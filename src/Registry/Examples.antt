-- ===== src/Registry/Examples.antt =====
-- A node that is found, approved, and does not answer.
use capture_room.Prelude.{
  ◌≡◌, ◌↔◌, refl, true, false, none, some, List, [], ◌∷◌, String, get, contains,
}
use capture_room.Registry.{
  NodeEntry, FoundNodeDto, NodeRegistry, new, upsert, set_found, remove, offline, access_denied,
}
use capture_room.Registry.Health.{
  Check, answered, missed, Knows, Spares, record_checks, record_checks-Knows,
}
use capture_room.Registry.Pins.{Keyed, Apart}
use capture_room.Registry.Runs.{starts, finds, upserts, Reaches-Trusts}

abbrev studio : NodeEntry
studio = record {
  id = "a";
  name = "Studio";
  url = "https://10.0.0.2";
  fingerprint = some "key";
  healthy = true;
  fail_count = 0;
  unreachable = none;
  status = none;
  relay = 7;
}

abbrev announced : FoundNodeDto
announced = record {
  id = "a";
  name = "Studio";
  url = "https://10.0.0.2";
  version = "0.3";
  fingerprint = "key";
}

abbrev approved : NodeRegistry
approved = (upsert studio (set_found announced new).0).0

Reaches-Trusts_example :
    ((fp : String) → (contains fp approved.pins ≡ true) ↔ Keyed approved.entries fp)
    × Apart approved.entries approved.found
unfolding set_found new
Reaches-Trusts_example =
    Reaches-Trusts approved (upserts studio (λ i fp e g. absurd (cc)) (finds announced starts))

abbrev checks : List Check
checks =
    missed access_denied
    ∷ answered (record { id = "a"; name = "Studio"; busy = none; clock = none })
    ∷ missed offline
    ∷ missed offline
    ∷ []

record_checks-Knows_example :
    ((d : NodeEntry) × (get "a" (record_checks "a" checks approved).entries ≡ some d)
      × Knows "a" studio checks d)
    × Spares "a" approved (record_checks "a" checks approved)
unfolding upsert set_found new
record_checks-Knows_example = record_checks-Knows "a" checks approved studio refl

-- A key is not trusted once its node is removed, and the node is not offered again.
removed_example :
    let r = (remove "a" approved).0 in
    (contains "key" r.pins ≡ false) × ((set_found announced r).1 ≡ false) × (r.cancelled ≡ 7 ∷ [])
unfolding remove upsert set_found new
removed_example = (refl, refl, refl)
