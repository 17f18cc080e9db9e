-- ===== src/Clock.antt =====
-- node/src/clock.rs: which clock a node runs on, who has claimed it, and the switch to a new clock once
-- it has synced. Each call stands for one hold of the lock. A thread that waits for a clock to sync is
-- an entry of `waiting`; an instant is a number of milliseconds.
pub mod Claims
pub mod Calls
pub mod Switch
pub mod Domains
mod Examples
use capture_room.Prelude.{
  ℕ, suc, ◌+◌, ◌-◌, ◌≡◌, Bool, true, false, not, ◌&&◌, Option, none, some, List, [], ◌∷◌, String,
  str_eq, ltb, ◌==◌, if◌then◌else◌, retain, ℤ, pos, negsuc,
}

pub data ClockMode : Type 0 where
  by_controller : ClockMode
  by_ptp : ℕ → ClockMode

pub data ClockSource : Type 0 where
  local : ClockSource
  -- Its id, name, address and port.
  controller : String → String → String → ℕ → ClockSource
  ptp : ℕ → ClockSource

pub record Master : Type 0 where
  pub id : String
  pub last_claim : ℕ

-- A clock is known by its source and the number of the switch to it.
pub record Follow : Type 0 where
  pub source : ClockSource
  pub serial : ℕ

pub record NodeClock : Type 0 where
  pub node_id : String
  pub own_mode : Option ClockMode
  pub master : Option Master
  pub active : Follow
  pub pending : Option Follow
  pub error : Option String
  pub serial : ℕ
  pub claimed_utc_offset_us : Option ℤ
  pub changed : ℕ
  pub waiting : List Follow

pub record ClockClaim : Type 0 where
  pub controller_id : String
  pub controller_name : String
  pub mode : ClockMode
  pub port : ℕ
  pub utc_offset_us : Option ℤ

abbrev pub master_timeout : ℕ
master_timeout = 20_000

unfoldable pub new : String → NodeClock
new node_id = record {
  node_id = node_id;
  own_mode = none;
  master = none;
  active = record { source = local; serial = 0 };
  pending = none;
  error = none;
  serial = 0;
  claimed_utc_offset_us = none;
  changed = 0;
  waiting = [];
}

-- A controller's name is only a label.
unfoldable pub same_source : ClockSource → ClockSource → Bool
same_source local local = true
same_source (controller i n a p) (controller j m b q) = str_eq i j && str_eq a b && p == q
same_source (ptp d) (ptp e) = d == e
same_source _ _ = false

abbrev pub is_local : ClockSource → Bool
is_local local = true
is_local (controller i n a p) = false
is_local (ptp d) = false

abbrev pub activate : Follow → NodeClock → NodeClock
activate f c = record c { active = f; changed = c.changed + 1 }

-- The clock was made: use it at once if it is the local one, else once it syncs.
abbrev pub adopt : Follow → NodeClock → NodeClock
adopt f c =
    if is_local f.source
    then activate f (record c { pending = none })
    else record c { pending = some f; waiting = f ∷ c.waiting }

abbrev pub awaits : Option Follow → ClockSource → Bool
awaits none source = false
awaits (some p) source = same_source p.source source

-- `made` is the error of `make_clock`, which the local clock never has.
abbrev pub make_error : Option String → ClockSource → Option String
make_error made local = none
make_error made (controller i n a p) = made
make_error made (ptp d) = made

abbrev pub begin_switch : Option String → ClockSource → NodeClock → NodeClock
begin_switch none source c =
    adopt (record { source = source; serial = c.serial + 1 })
      (record c { serial = c.serial + 1; error = none })
begin_switch (some e) source c = record c { serial = c.serial + 1; pending = none; error = some e }

unfoldable pub follow : Option String → ClockSource → NodeClock → NodeClock
unfolding same_source
follow made source c =
    if same_source c.active.source source
    then record c { pending = none; error = none }
    else if awaits c.pending source
    then c
    else begin_switch (make_error made source) source c

abbrev pub own_source : ClockMode → ClockSource
own_source by_controller = local
own_source (by_ptp d) = ptp d

abbrev pub note_change : NodeClock → NodeClock
note_change c = record c { changed = c.changed + 1 }

abbrev pub follow_own : Option String → Option ClockMode → NodeClock → NodeClock
follow_own made none c = c
follow_own made (some mode) c = follow made (own_source mode) c

unfoldable pub set_own_mode : Option String → Option ClockMode → NodeClock → NodeClock
unfolding follow
set_own_mode made mode c =
    note_change (follow_own made mode (record c { own_mode = mode; master = none }))

-- Another controller than `id` claimed the node less than the timeout ago.
abbrev pub taken : Option Master → String → ℕ → Bool
taken none id now = false
taken (some m) id now = not (str_eq m.id id) && ltb (now - m.last_claim) master_timeout

abbrev pub claimed_source : ClockClaim → String → ClockMode → ClockSource
claimed_source claim address by_controller =
    controller claim.controller_id claim.controller_name address claim.port
claimed_source claim address (by_ptp d) = ptp d

abbrev pub accept : Option String → ClockClaim → String → ℕ → NodeClock → NodeClock
accept made claim address now c = follow made (claimed_source claim address claim.mode) (record c {
  master = some (record { id = claim.controller_id; last_claim = now });
  claimed_utc_offset_us = claim.utc_offset_us;
})

abbrev pub claim_unless :
    Option ClockMode → Option String → ClockClaim → String → ℕ → NodeClock → NodeClock × Bool
claim_unless (some mode) made claim address now c = (c, false)
claim_unless none made claim address now c =
    if taken c.master claim.controller_id now
    then (c, false)
    else (accept made claim address now c, true)

-- Returns whether the claimer is this node's master.
unfoldable pub claim : Option String → ClockClaim → String → ℕ → NodeClock → NodeClock × Bool
unfolding follow
claim made request address now c = claim_unless c.own_mode made request address now c

abbrev pub is_pending : Option Follow → ℕ → Bool
is_pending none serial = false
is_pending (some f) serial = f.serial == serial

abbrev pub stop_waiting : Follow → NodeClock → NodeClock
stop_waiting f c = record c {
  waiting = retain (λ (g : Follow). not (g.serial == f.serial)) c.waiting;
}

-- One round of the thread that waits for `f`: it ends if `f` was replaced, or once it has synced.
unfoldable pub await_sync : Follow → Bool → NodeClock → NodeClock
await_sync f synced c =
    if not (is_pending c.pending f.serial)
    then stop_waiting f c
    else if synced
    then activate f (stop_waiting f (record c { pending = none }))
    else c

pub data Domain : Type 0 where
  of_controller of_local : String → Domain
  of_ptp : ℕ → Domain

abbrev pub local_domain : Option ClockMode → String → Domain
local_domain (some by_controller) id = of_controller id
local_domain (some (by_ptp d)) id = of_local id
local_domain none id = of_local id

abbrev pub domain_from : ClockSource → Option ClockMode → String → Domain
domain_from local mode id = local_domain mode id
domain_from (controller i n a p) mode id = of_controller i
domain_from (ptp d) mode id = of_ptp d

unfoldable pub domain_of : NodeClock → Domain
domain_of c = domain_from c.active.source c.own_mode c.node_id

abbrev pub offset_from : ClockSource → Option ℤ → Option ℤ → Option ℤ
offset_from local reading claimed = reading
offset_from (controller i n a p) reading claimed = claimed
offset_from (ptp d) reading claimed = some (negsuc 36_999_999)

-- `reading` is this machine's wall clock against its own clock.
unfoldable pub offset_of : Option ℤ → NodeClock → Option ℤ
offset_of reading c = offset_from c.active.source reading c.claimed_utc_offset_us
