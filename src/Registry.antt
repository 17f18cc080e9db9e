-- ===== src/Registry.antt =====
-- node/src/controller/registry.rs: the controller's approved nodes, the keys it trusts and the nodes
-- found on the network. A status keeps the fields that the registry reads, a relay's token is a
-- number, and tokens that were cancelled are listed.
pub mod Health
pub mod Pins
pub mod Approve
pub mod Trust
pub mod Runs
mod Examples
use capture_room.Prelude.{
  ℕ, ◌+◌, ◌≡◌, Bool, true, false, not, ◌&&◌, ◌||◌, Option, none, some, List, [], ◌∷◌, String,
  str_eq, ◌==◌, if◌then◌else◌, get, put, delete, contains, exclude, ℤ,
}
use capture_room.Clock.{ClockSource, local, controller, ptp}

pub data Unreachable : Type 0 where
  offline access_denied : Unreachable
  key_changed other_node failing runs_version : String → Unreachable

pub record ClockStatus : Type 0 where
  pub source : ClockSource
  pub domain : String
  pub synced : Bool
  pub pending : Option ClockSource
  pub delay_us : Option ℕ
  pub lost : Bool
  pub stale_sources : ℕ
  pub error : Option String
  pub utc_offset_us : Option ℤ

pub record NodeStatus : Type 0 where
  pub id : String
  pub name : String
  pub busy : Option String
  pub clock : Option ClockStatus

pub record NodeEntry : Type 0 where
  pub id : String
  pub name : String
  pub url : String
  pub fingerprint : Option String
  pub healthy : Bool
  pub fail_count : ℕ
  pub unreachable : Option Unreachable
  pub status : Option NodeStatus
  pub relay : ℕ

pub record FoundNodeDto : Type 0 where
  pub id : String
  pub name : String
  pub url : String
  pub version : String
  pub fingerprint : String

pub record FoundNode : Type 0 where
  pub dto : FoundNodeDto
  pub fail_count : ℕ

pub record NodeRegistry : Type 0 where
  pub entries : List (String × NodeEntry)
  pub found : List (String × FoundNode)
  pub ignored : List String
  pub pins : List String
  pub cancelled : List ℕ

unfoldable pub new : NodeRegistry
new = record { entries = []; found = []; ignored = []; pins = []; cancelled = [] }

abbrev pub pin : Option String → List String → List String
pin none pins = pins
pin (some fp) pins = fp ∷ pins

abbrev pub same_key : Option String → Option String → Bool
same_key none none = true
same_key (some a) (some b) = str_eq a b
same_key _ _ = false

-- An entry's old key, if it has another one now, is no longer trusted.
abbrev pub unpin_old : Option String → Option String → List String → List String
unpin_old none key pins = pins
unpin_old (some old) key pins = if same_key key (some old) then pins else exclude old pins

abbrev pub put_entry : Option NodeEntry → NodeEntry → NodeRegistry → NodeRegistry × Bool
put_entry none entry r = (record r { entries = put entry.id entry r.entries }, true)
put_entry (some existing) entry r = (
  record r {
    pins = unpin_old existing.fingerprint entry.fingerprint r.pins;
    entries = put entry.id (record entry { relay = existing.relay }) r.entries;
  },
  false,
)

abbrev pub key_of : Option NodeEntry → Option String
key_of none = none
key_of (some e) = e.fingerprint

-- Returns whether the node is new.
unfoldable pub upsert : NodeEntry → NodeRegistry → NodeRegistry × Bool
upsert entry r =
    put_entry (get entry.id r.entries) entry
      (record r { found = delete entry.id r.found; pins = pin entry.fingerprint r.pins })

abbrev pub forget_key : Option String → NodeRegistry → NodeRegistry
forget_key none r = r
forget_key (some fp) r = record r { pins = exclude fp r.pins; ignored = fp ∷ r.ignored }

abbrev pub remove_entry : Option NodeEntry → String → NodeRegistry → NodeRegistry × Option NodeEntry
remove_entry none id r = (r, none)
remove_entry (some entry) id r = (
  forget_key entry.fingerprint
      (record r { entries = delete id r.entries; cancelled = entry.relay ∷ r.cancelled }),
  some entry,
)

unfoldable pub remove : String → NodeRegistry → NodeRegistry × Option NodeEntry
remove id r = remove_entry (get id r.entries) id r

abbrev pub is_some : {A : Type 0} → Option A → Bool
is_some none = false
is_some (some a) = true

abbrev pub same_found : FoundNodeDto → FoundNodeDto → Bool
same_found a b =
    str_eq a.id b.id
    && str_eq a.name b.name
    && str_eq a.url b.url
    && str_eq a.version b.version
    && str_eq a.fingerprint b.fingerprint

abbrev pub differs : Option FoundNode → FoundNodeDto → Bool
differs none dto = true
differs (some f) dto = not (same_found f.dto dto)

-- Returns whether the list changed in a way that shows.
unfoldable pub set_found : FoundNodeDto → NodeRegistry → NodeRegistry × Bool
set_found dto r =
    if contains dto.fingerprint r.ignored || is_some (get dto.id r.entries) then (r, false) else (
      record r { found = put dto.id (record { dto = dto; fail_count = 0 }) r.found },
      differs (get dto.id r.found) dto,
    )

abbrev pub ignore_found : Option FoundNode → String → NodeRegistry → NodeRegistry × Bool
ignore_found none id r = (r, false)
ignore_found (some f) id r =
    (record r { found = delete id r.found; ignored = f.dto.fingerprint ∷ r.ignored }, true)

unfoldable pub ignore : String → NodeRegistry → NodeRegistry × Bool
ignore id r = ignore_found (get id r.found) id r

abbrev pub fail_found : Option FoundNode → String → NodeRegistry → NodeRegistry × ℕ
fail_found none id r = (r, 0)
fail_found (some f) id r = (
  record r { found = put id (record f { fail_count = f.fail_count + 1 }) r.found },
  f.fail_count + 1,
)

unfoldable pub found_failure : String → NodeRegistry → NodeRegistry × ℕ
found_failure id r = fail_found (get id r.found) id r
