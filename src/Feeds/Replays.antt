-- ===== src/Feeds/Replays.antt =====
-- node/src/sources/manager.rs: when a replay starts on its source's monitor (sync_replays), and how replays are
-- set up (set_replay).
use capture_room.Prelude.{
  ℕ, Bool, true, false, ◌&&◌, Option, none, some, List, [], ◌∷◌, String, ◌==◌, if◌then◌else◌, get,
  put, delete, contains,
}
use capture_room.Feeds.{Monitor, ReplayLeg, Replay, Feeds, recording, take_leg}

-- What a replay can be fed from: its source's monitor, or the one that the same work starts.
pub data Feed : Type 0 where
  no_feed from_start : Feed
  from_monitor : Monitor → Feed

abbrev pub feed_of : Bool → Option Monitor → Feed
feed_of true m = from_start
feed_of false none = no_feed
feed_of false (some m) = from_monitor m

abbrev pub is_on : ℕ → Option (ReplayLeg × ℕ) → Bool
is_on n none = false
is_on n (some l) = l.1 == n

abbrev pub records_from : Feed → Replay → Bool
records_from no_feed r = false
records_from from_start r = false
records_from (from_monitor m) r = is_on m.serial r.leg && recording r

-- The start of a replay that a work is to run: its feed (none if it only clears the folder), its codec and its index.
pub record ReplayJob : Type 0 where
  pub feed : Option Feed
  pub codec : ℕ
  pub index : ℕ
  pub clear : Bool

abbrev pub job_on : Feed → Replay → ReplayJob
job_on feed r = record { feed = some feed; codec = r.codec; index = r.index; clear = false }

-- The replay, and its start if it is to start on its feed.
abbrev pub sync_with : Feed → Replay → Replay × Option ReplayJob
sync_with no_feed r = (take_leg r, none)
sync_with from_start r = (record r { leg = none; starting = true }, some (job_on from_start r))
sync_with (from_monitor m) r =
    if records_from (from_monitor m) r
    then (r, none)
    else (record r { leg = none; starting = true }, some (job_on (from_monitor m) r))

abbrev pub sync_unless : Bool → Feed → Replay → Replay × Option ReplayJob
sync_unless true feed r = (r, none)
sync_unless false feed r = sync_with feed r

-- One that is starting already is left alone.
unfoldable pub sync_replay : Feed → Replay → Replay × Option ReplayJob
sync_replay feed r = sync_unless r.starting feed r

abbrev pub plan : String → Option ReplayJob → List (String × ReplayJob) → List (String × ReplayJob)
plan id none jobs = jobs
plan id (some job) jobs = (id, job) ∷ jobs

-- Each replay is started on its source's monitor unless it records from it already; `starts` are the sources whose monitors the
-- work starts. Returns the replays and the starts that the work is to run.
abbrev pub sync_each :
    List String
    → List (String × Monitor)
    → List (String × Replay)
    → List (String × Replay) × List (String × ReplayJob)
sync_each starts monitors [] = ([], [])
sync_each starts monitors ((id, r) ∷ replays) =
    let s = sync_replay (feed_of (contains id starts) (get id monitors)) r in
    let rest = sync_each starts monitors replays in ((id, s.0) ∷ rest.0, plan id s.1 rest.1)

unfoldable pub sync_replays : List String → Feeds → Feeds × List (String × ReplayJob)
sync_replays starts f =
    let s = sync_each starts f.monitors f.replays in (record f { replays = s.0 }, s.1)

pub record ReplayConfig : Type 0 where
  pub codec : ℕ
  pub minutes : ℕ

abbrev pub same_or_taken : Bool → Replay → Replay
same_or_taken true r = r
same_or_taken false r = take_leg r

abbrev pub configured : ReplayConfig → Replay → Replay
configured c r = record (same_or_taken (r.codec == c.codec) r) {
  codec = c.codec;
  minutes = c.minutes;
}

abbrev pub new_replay : ReplayConfig → ℕ → Replay
new_replay c index = record {
  leg = none;
  codec = c.codec;
  minutes = c.minutes;
  index = index;
  error = none;
  starting = false;
}

abbrev pub clear_job : Replay → ReplayJob
clear_job r = record { feed = none; codec = r.codec; index = r.index; clear = true }

abbrev pub clear_unless :
    Bool → Replay → String → Feeds × List (String × ReplayJob) → Feeds × List (String × ReplayJob)
clear_unless true r id s = s
clear_unless false r id s = (
  record s.0 { replays = put id (record r { starting = true }) s.0.replays },
  put id (clear_job r) s.1,
)

-- A new replay's folder is cleared even before there is a monitor to record from.
abbrev pub begin_clear :
    Option Replay → String → Feeds × List (String × ReplayJob) → Feeds × List (String × ReplayJob)
begin_clear none id s = s
begin_clear (some r) id s = clear_unless r.starting r id s

abbrev pub put_config :
    Option Replay → String → ReplayConfig → ℕ → Feeds → Feeds × List (String × ReplayJob)
put_config (some r) id c index f =
    sync_replays [] (record f { replays = put id (configured c r) f.replays })
put_config none id c index f =
    let s = sync_replays [] (record f { replays = put id (new_replay c index) f.replays }) in
    begin_clear (get id s.0.replays) id s

-- A source's replay is added with an index, changed, or removed. Returns the starts that the work is to run.
unfoldable pub set_replay :
    String → Option ReplayConfig → ℕ → Feeds → Feeds × List (String × ReplayJob)
set_replay id none index f = (record f { replays = delete id f.replays }, [])
set_replay id (some c) index f = put_config (get id f.replays) id c index f
