-- ===== src/Registry/Health.antt =====
-- The health checks of approved nodes: `record_success` and `record_failure`, and the count they keep.
use capture_room.Prelude.{
  ℕ, ◌+◌, ◌≡◌, refl, ◌∙◌, sym, ap, Bool, true, false, not, ◌&&◌, Option, none, some, List, [], ◌∷◌,
  String, str_eq, ◌==◌, get, put, get-put, get-put_other, subst,
}
use capture_room.Clock.{ClockSource, local, controller, ptp}
use capture_room.Registry.{
  Unreachable, offline, access_denied, key_changed, other_node, failing, runs_version, ClockStatus,
  NodeStatus, NodeEntry, NodeRegistry,
}

abbrev pub same_text : Option String → Option String → Bool
same_text none none = true
same_text (some a) (some b) = str_eq a b
same_text _ _ = false

abbrev pub same_clock_source : ClockSource → ClockSource → Bool
same_clock_source local local = true
same_clock_source (controller i n a p) (controller j m b q) =
    str_eq i j && str_eq n m && str_eq a b && p == q
same_clock_source (ptp d) (ptp e) = d == e
same_clock_source _ _ = false

abbrev pub same_pending : Option ClockSource → Option ClockSource → Bool
same_pending none none = true
same_pending (some a) (some b) = same_clock_source a b
same_pending _ _ = false

abbrev pub same_bool : Bool → Bool → Bool
same_bool true b = b
same_bool false b = not b

-- All but the delay and the offset, which wobble.
abbrev pub same_state : ClockStatus → ClockStatus → Bool
same_state a b =
    same_clock_source a.source b.source
    && str_eq a.domain b.domain
    && same_bool a.synced b.synced
    && same_pending a.pending b.pending
    && same_bool a.lost b.lost
    && a.stale_sources == b.stale_sources
    && same_text a.error b.error

abbrev pub same_state_of : Option ClockStatus → Option ClockStatus → Bool
same_state_of none none = true
same_state_of (some a) (some b) = same_state a b
same_state_of _ _ = false

abbrev pub clock_of : Option NodeStatus → Option ClockStatus
clock_of none = none
clock_of (some s) = s.clock

abbrev pub succeed : NodeStatus → NodeEntry → NodeEntry
succeed status e = record e {
  status = some status;
  healthy = true;
  fail_count = 0;
  unreachable = none;
}

abbrev pub success_of : Option NodeEntry → NodeStatus → NodeRegistry → NodeRegistry × Bool × Bool
success_of none status r = (r, false, false)
success_of (some e) status r = (
  record r { entries = put status.id (succeed status e) r.entries },
  not e.healthy,
  not (same_state_of (clock_of e.status) status.clock),
)

-- Returns whether the node was unhealthy, and whether the state of its clock changed.
unfoldable pub record_success : NodeStatus → NodeRegistry → NodeRegistry × Bool × Bool
record_success status r = success_of (get status.id r.entries) status r

abbrev pub same_reason : Unreachable → Unreachable → Bool
same_reason offline offline = true
same_reason access_denied access_denied = true
same_reason (key_changed a) (key_changed b) = str_eq a b
same_reason (other_node a) (other_node b) = str_eq a b
same_reason (failing a) (failing b) = str_eq a b
same_reason (runs_version a) (runs_version b) = str_eq a b
same_reason _ _ = false

abbrev pub other_reason : Option Unreachable → Unreachable → Bool
other_reason none b = true
other_reason (some a) b = not (same_reason a b)

abbrev pub falter : Unreachable → NodeEntry → NodeEntry
falter reason e = record e {
  healthy = false;
  fail_count = e.fail_count + 1;
  unreachable = some reason;
}

abbrev pub failure_of :
    Option NodeEntry → String → Unreachable → NodeRegistry → NodeRegistry × ℕ × Bool
failure_of none id reason r = (r, 0, false)
failure_of (some e) id reason r = (
  record r { entries = put id (falter reason e) r.entries },
  e.fail_count + 1,
  other_reason e.unreachable reason,
)

-- Returns the count of failures in a row, and whether the reason changed.
unfoldable pub record_failure : String → Unreachable → NodeRegistry → NodeRegistry × ℕ × Bool
record_failure id reason r = failure_of (get id r.entries) id reason r

-- A node's check: what it answered, or why it failed.
pub data Check : Type 0 where
  answered : NodeStatus → Check
  missed : Unreachable → Check

abbrev pub record_check : String → Check → NodeRegistry → NodeRegistry
record_check id (answered status) r = (record_success (record status { id = id }) r).0
record_check id (missed reason) r = (record_failure id reason r).0

pub record_checks : String → List Check → NodeRegistry → NodeRegistry
record_checks id [] r = r
record_checks id (c ∷ cs) r = record_checks id cs (record_check id c r)

-- How many checks failed since the last one that did not, after `count` before.
abbrev pub missed_since : ℕ → List Check → ℕ
missed_since count [] = count
missed_since count (answered status ∷ cs) = missed_since 0 cs
missed_since count (missed reason ∷ cs) = missed_since (count + 1) cs

-- Whether the last check was answered, or `healthy` if there was none.
abbrev pub answered_last : Bool → List Check → Bool
answered_last healthy [] = healthy
answered_last healthy (answered status ∷ cs) = answered_last true cs
answered_last healthy (missed reason ∷ cs) = answered_last false cs

abbrev pub why_last : Option Unreachable → List Check → Option Unreachable
why_last why [] = why
why_last why (answered status ∷ cs) = why_last none cs
why_last why (missed reason ∷ cs) = why_last (some reason) cs

-- The last status that was answered, under the identifier that was asked, or `status`.
abbrev pub status_last : String → Option NodeStatus → List Check → Option NodeStatus
status_last id status [] = status
status_last id status (answered s ∷ cs) = status_last id (some (record s { id = id })) cs
status_last id status (missed reason ∷ cs) = status_last id status cs

-- What an approved node is known by is kept, and its health and status are the checks'.
pub record Knows (id : String) (e : NodeEntry) (cs : List Check) (after : NodeEntry) : Type 0 where
  pub same_id : after.id ≡ e.id
  pub same_name : after.name ≡ e.name
  pub shown : after.status ≡ status_last id e.status cs
  pub counts : after.fail_count ≡ missed_since e.fail_count cs
  pub health : after.healthy ≡ answered_last e.healthy cs
  pub why : after.unreachable ≡ why_last e.unreachable cs
  pub key : after.fingerprint ≡ e.fingerprint
  pub url : after.url ≡ e.url
  pub relay : after.relay ≡ e.relay

record_check-get :
    (id : String) (c : Check) (r : NodeRegistry) (e : NodeEntry)
    → get id r.entries ≡ some e
    → (d : NodeEntry) × (get id (record_check id c r).entries ≡ some d) × Knows id e (c ∷ []) d
unfolding record_success record_failure
record_check-get id (answered status) r e g = (
  succeed (record status { id = id }) e,
  subst
      (λ (o : Option NodeEntry).
        get id (success_of o (record status { id = id }) r).0.entries
        ≡ some (succeed (record status { id = id }) e))
      (sym g) (get-put id _ r.entries),
  record {
    same_id = refl;
    same_name = refl;
    shown = refl;
    counts = refl;
    health = refl;
    why = refl;
    key = refl;
    url = refl;
    relay = refl;
  },
)
record_check-get id (missed reason) r e g = (
  falter reason e,
  subst
      (λ (o : Option NodeEntry).
        get id (failure_of o id reason r).0.entries ≡ some (falter reason e))
      (sym g) (get-put id _ r.entries),
  record {
    same_id = refl;
    same_name = refl;
    shown = refl;
    counts = refl;
    health = refl;
    why = refl;
    key = refl;
    url = refl;
    relay = refl;
  },
)

join_checks :
    (id : String) (c : Check) (cs : List Check) (e d a : NodeEntry)
    → Knows id e (c ∷ []) d
    → Knows id d cs a
    → Knows id e (c ∷ cs) a
join_checks id (answered status) cs e d a k l = record {
  same_id = l.same_id ∙ k.same_id;
  same_name = l.same_name ∙ k.same_name;
  shown = l.shown ∙ ap (λ (o : Option NodeStatus). status_last id o cs) k.shown;
  counts = l.counts ∙ ap (λ (n : ℕ). missed_since n cs) k.counts;
  health = l.health ∙ ap (λ (b : Bool). answered_last b cs) k.health;
  why = l.why ∙ ap (λ (w : Option Unreachable). why_last w cs) k.why;
  key = l.key ∙ k.key;
  url = l.url ∙ k.url;
  relay = l.relay ∙ k.relay;
}
join_checks id (missed reason) cs e d a k l = record {
  same_id = l.same_id ∙ k.same_id;
  same_name = l.same_name ∙ k.same_name;
  shown = l.shown ∙ ap (λ (o : Option NodeStatus). status_last id o cs) k.shown;
  counts = l.counts ∙ ap (λ (n : ℕ). missed_since n cs) k.counts;
  health = l.health ∙ ap (λ (b : Bool). answered_last b cs) k.health;
  why = l.why ∙ ap (λ (w : Option Unreachable). why_last w cs) k.why;
  key = l.key ∙ k.key;
  url = l.url ∙ k.url;
  relay = l.relay ∙ k.relay;
}

-- Other nodes and the lists of the registry are as they were.
pub record Spares (id : String) (r after : NodeRegistry) : Type 0 where
  pub others : (j : String) → str_eq id j ≡ false → get j after.entries ≡ get j r.entries
  pub found : after.found ≡ r.found
  pub ignored : after.ignored ≡ r.ignored
  pub pins : after.pins ≡ r.pins
  pub cancelled : after.cancelled ≡ r.cancelled

record_check-Spares :
    (id : String) (c : Check) (r : NodeRegistry) → Spares id r (record_check id c r)
unfolding record_success record_failure
record_check-Spares id (answered status) r = by_entry (get id r.entries)
  where
    by_entry : (o : Option NodeEntry) → Spares id r (success_of o (record status { id = id }) r).0
    by_entry none = record {
      others = λ j h. refl;
      found = refl;
      ignored = refl;
      pins = refl;
      cancelled = refl;
    }
    by_entry (some e) = record {
      others = λ j h. get-put_other id j _ r.entries h;
      found = refl;
      ignored = refl;
      pins = refl;
      cancelled = refl;
    }
record_check-Spares id (missed reason) r = by_entry (get id r.entries)
  where
    by_entry : (o : Option NodeEntry) → Spares id r (failure_of o id reason r).0
    by_entry none = record {
      others = λ j h. refl;
      found = refl;
      ignored = refl;
      pins = refl;
      cancelled = refl;
    }
    by_entry (some e) = record {
      others = λ j h. get-put_other id j _ r.entries h;
      found = refl;
      ignored = refl;
      pins = refl;
      cancelled = refl;
    }

record_checks-Spares :
    (id : String) (cs : List Check) (r : NodeRegistry) → Spares id r (record_checks id cs r)
unfolding record_checks
record_checks-Spares id [] r = record {
  others = λ j h. refl;
  found = refl;
  ignored = refl;
  pins = refl;
  cancelled = refl;
}
record_checks-Spares id (c ∷ cs) r =
    let k = record_check-Spares id c r in
    let l = record_checks-Spares id cs (record_check id c r) in
    record {
      others = λ j h. l.others j h ∙ k.others j h;
      found = l.found ∙ k.found;
      ignored = l.ignored ∙ k.ignored;
      pins = l.pins ∙ k.pins;
      cancelled = l.cancelled ∙ k.cancelled;
    }

record_checks-get :
    (id : String) (cs : List Check) (r : NodeRegistry) (e : NodeEntry)
    → get id r.entries ≡ some e
    → (d : NodeEntry) × (get id (record_checks id cs r).entries ≡ some d) × Knows id e cs d
unfolding record_checks
record_checks-get id [] r e g = (
  e,
  g,
  record {
    same_id = refl;
    same_name = refl;
    shown = refl;
    counts = refl;
    health = refl;
    why = refl;
    key = refl;
    url = refl;
    relay = refl;
  },
)
record_checks-get id (c ∷ cs) r e g =
    let (d, gd, kd) = record_check-get id c r e g in
    let (a, ga, ka) = record_checks-get id cs (record_check id c r) d gd in
    (a, ga, join_checks id c cs e d a kd ka)

-- After any health checks of an approved node, it is still approved, with the same identifier, name, key, address and
-- relay; its failure count is the number of checks that failed since the last one that was answered,
-- its health and the reason shown are those of the last check, and its status is the last one answered. Other nodes, the nodes found
-- and ignored, the keys trusted and the tokens cancelled are as before.
pub record_checks-Knows :
    (id : String) (cs : List Check) (r : NodeRegistry) (e : NodeEntry)
    → get id r.entries ≡ some e
    → ((d : NodeEntry) × (get id (record_checks id cs r).entries ≡ some d) × Knows id e cs d)
      × Spares id r (record_checks id cs r)
record_checks-Knows id cs r e g = (record_checks-get id cs r e g, record_checks-Spares id cs r)
