-- ===== src/Feeds.antt =====
-- node/src/sources/manager.rs: what runs on the monitors of a node's sources, a channel's outputs and replay
-- legs. They start off the lock, so that what has started may find its monitor gone. A pipeline, a
-- source, a leg and an index are known by numbers, and outputs keep which monitor they run on.
pub mod Replays
pub mod Fed
pub mod Runs
pub mod Served
mod Examples
use capture_room.Prelude.{
  ℕ, Bool, true, false, not, ◌&&◌, ◌||◌, Option, none, some, List, [], ◌∷◌, ◌++◌, map, String,
  str_eq, ◌==◌, if◌then◌else◌, any, get, put, delete, contains,
}

pub record Monitor : Type 0 where
  pub serial : ℕ
  pub clock : ℕ

pub record Source : Type 0 where
  pub serial : ℕ
  pub id : String

-- Sending, or its label and why it could not start.
pub data OutputLeg : Type 0 where
  sending : ℕ → OutputLeg
  unstarted : String → String → OutputLeg

pub record ChannelOutputs : Type 0 where
  pub legs : List (String × OutputLeg)
  pub monitor : ℕ

pub record ReplayLeg : Type 0 where
  pub serial : ℕ
  pub error : Option String

-- `leg` comes with the monitor that it records from.
pub record Replay : Type 0 where
  pub leg : Option (ReplayLeg × ℕ)
  pub codec : ℕ
  pub minutes : ℕ
  pub index : ℕ
  pub error : Option String
  pub starting : Bool

pub record Feeds : Type 0 where
  pub sources : List Source
  pub monitors : List (String × Monitor)
  pub start_errors : List (String × String)
  pub outputs : List (String × ChannelOutputs)
  pub replays : List (String × Replay)

-- What is dropped off the lock.
pub data Dropped : Type 0 where
  a_monitor : ℕ → Dropped
  some_outputs : List (String × OutputLeg) → Dropped
  a_leg : ReplayLeg → Dropped

abbrev pub is_serial : Option Monitor → ℕ → Bool
is_serial none n = false
is_serial (some m) n = m.serial == n

unfoldable pub is_current : String → ℕ → Feeds → Bool
is_current id n f = is_serial (get id f.monitors) n

abbrev pub is_recording_leg : Option (ReplayLeg × ℕ) → Bool
is_recording_leg none = false
is_recording_leg (some l) = is_fine l.0.error
  where
    is_fine : Option String → Bool
    is_fine none = true
    is_fine (some e) = false

-- The buffer records.
unfoldable pub recording : Replay → Bool
recording r = is_recording_leg r.leg

-- What a source's monitor came to.
pub data Pipeline : Type 0 where
  up : Monitor → Pipeline
  down : String → Pipeline

pub data LegResult : Type 0 where
  leg_up : ReplayLeg → LegResult
  leg_down : String → LegResult

pub record StartedReplay : Type 0 where
  pub index : ℕ
  pub codec : ℕ
  pub leg : Option (LegResult × ℕ)

-- What a source's part of a work has started.
pub record Started : Type 0 where
  pub id : String
  pub monitor : Option (ℕ × Pipeline)
  pub outputs : Option ChannelOutputs
  pub replay : Option StartedReplay

abbrev pub is_listed : ℕ → List Source → Bool
is_listed n sources = any (λ (s : Source). s.serial == n) sources

abbrev pub put_monitor : Option Monitor → Bool → String → Monitor → Feeds → Feeds × List Dropped
put_monitor none true id m f =
    (record f { monitors = put id m f.monitors; start_errors = delete id f.start_errors }, [])
put_monitor none false id m f = (f, a_monitor m.serial ∷ [])
put_monitor (some old) listed id m f = (f, a_monitor m.serial ∷ [])

abbrev pub apply_pipeline : Bool → String → Pipeline → Feeds → Feeds × List Dropped
apply_pipeline listed id (up m) f = put_monitor (get id f.monitors) listed id m f
apply_pipeline true id (down e) f = (record f { start_errors = put id e f.start_errors }, [])
apply_pipeline false id (down e) f = (f, [])

unfoldable pub apply_monitor : String → Option (ℕ × Pipeline) → Feeds → Feeds × List Dropped
apply_monitor id none f = (f, [])
apply_monitor id (some p) f = apply_pipeline (is_listed p.0 f.sources) id p.1 f

abbrev pub put_outputs :
    Option ChannelOutputs → Bool → String → ChannelOutputs → Feeds → Feeds × List Dropped
put_outputs none true id o f = (record f { outputs = put id o f.outputs }, [])
put_outputs none false id o f = (f, some_outputs o.legs ∷ [])
put_outputs (some old) current id o f = (f, some_outputs o.legs ∷ [])

unfoldable pub apply_outputs : String → Option ChannelOutputs → Feeds → Feeds × List Dropped
apply_outputs id none f = (f, [])
apply_outputs id (some o) f = put_outputs (get id f.outputs) (is_current id o.monitor f) id o f

abbrev pub drop_leg : Option (ReplayLeg × ℕ) → List Dropped
drop_leg none = []
drop_leg (some l) = a_leg l.0 ∷ []

abbrev pub settle_leg : Bool → Bool → Option (LegResult × ℕ) → Replay → Replay × List Dropped
settle_leg current same_codec none r = (record r { starting = false }, [])
settle_leg true true (some (leg_up l, n)) r =
    (record r { starting = false; leg = some (l, n); error = none }, drop_leg r.leg)
settle_leg true false (some (leg_up l, n)) r = (record r { starting = false }, a_leg l ∷ [])
settle_leg false same_codec (some (leg_up l, n)) r = (record r { starting = false }, a_leg l ∷ [])
settle_leg true same_codec (some (leg_down e, n)) r =
    (record r { starting = false; error = some e }, [])
settle_leg false same_codec (some (leg_down e, n)) r = (record r { starting = false }, [])

abbrev pub is_fed : String → Option (LegResult × ℕ) → Feeds → Bool
is_fed id none f = true
is_fed id (some l) f = is_current id l.1 f

abbrev pub turn_away : Option (LegResult × ℕ) → List Dropped
turn_away none = []
turn_away (some (leg_up l, n)) = a_leg l ∷ []
turn_away (some (leg_down e, n)) = []

abbrev pub put_replay : String → Replay × List Dropped → Feeds → Feeds × List Dropped
put_replay id r f = (record f { replays = put id r.0 f.replays }, r.1)

-- Only the replay whose index it started for takes the leg.
abbrev pub settle_replay : Option Replay → String → StartedReplay → Feeds → Feeds × List Dropped
settle_replay none id s f = (f, turn_away s.leg)
settle_replay (some r) id s f =
    if r.index == s.index
    then put_replay id (settle_leg (is_fed id s.leg f) (r.codec == s.codec) s.leg r) f
    else (f, turn_away s.leg)

unfoldable pub apply_replay : String → Option StartedReplay → Feeds → Feeds × List Dropped
apply_replay id none f = (f, [])
apply_replay id (some s) f = settle_replay (get id f.replays) id s f

unfoldable pub apply_one : Started → Feeds → Feeds × List Dropped
apply_one s f =
    let a = apply_monitor s.id s.monitor f in
    let b = apply_outputs s.id s.outputs a.0 in
    let c = apply_replay s.id s.replay b.0 in (c.0, a.1 ++ b.1 ++ c.1)

-- What a work has started is put in place, unless it went stale; returns what was turned away.
abbrev pub apply : List Started → Feeds → Feeds × List Dropped
apply [] f = (f, [])
apply (s ∷ started) f =
    let r = apply_one s f in let rest = apply started r.0 in (rest.0, r.1 ++ rest.1)

abbrev pub take_leg : Replay → Replay
take_leg r = record r { leg = none }

abbrev pub unfeed : Option Replay → String → Feeds → Feeds
unfeed none id f = f
unfeed (some r) id f = record f { replays = put id (take_leg r) f.replays }

-- A source's monitor and what runs on it go.
unfoldable pub disconnect : String → Feeds → Feeds
disconnect id f =
    unfeed (get id f.replays) id
      (record f { outputs = delete id f.outputs; monitors = delete id f.monitors })
