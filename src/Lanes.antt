-- ===== src/Lanes.antt =====
-- node/src/sources/channel/lanes.rs: the program side of a clip. A lane stamps the buffers that a player
-- pushes with program time and queues them. Times are nanoseconds, an appsrc is a number, and what it
-- says of the program's time is `Program`. `prepare` is the first hold of the lock in `push` and what follows it, `commit` the second.
pub mod Order
pub mod FollowOn
mod Examples
use capture_room.Prelude.{
  ℕ, ◌+◌, ◌*◌, Bool, true, false, not, ◌&&◌, ◌||◌, Option, none, some, List, [], ◌∷◌, ltb, leb,
  ◌==◌, if◌then◌else◌, max, sub?, ◌>>=◌,
}

abbrev pub lead : ℕ
lead = 100_000_000

abbrev pub millisecond : ℕ
millisecond = 1_000_000

pub record Lane : Type 0 where
  pub src : Option ℕ
  -- Start and end of the last buffer.
  pub last : Option (ℕ × ℕ)

-- `current_running_time` and `base_time` of a lane's appsrc.
pub record Program : Type 0 where
  pub now : Option ℕ
  pub base_time : Option ℕ

-- A sample's running time in its player, and its buffer's duration.
pub record Sample : Type 0 where
  pub running : Option ℕ
  pub duration : Option ℕ

pub record Pushed : Type 0 where
  pub start : ℕ
  pub end : ℕ
  pub gap : Bool
  pub still : Bool

-- When a sample is due in the program: now, for a preroll.
unfoldable pub program_pts : Program → Sample → Option ℕ → Option ℕ
unfolding sub?
program_pts p s none = do now ← p.now; some (now + lead)
program_pts p s (some player_base) = do
  running ← s.running
  base ← p.base_time
  sub? (player_base + running + lead) base

-- A preroll shows after what is queued.
abbrev pub raise : Option ℕ → Option (ℕ × ℕ) → ℕ → ℕ
raise none (some (start, end)) pts = max pts end
raise _ last pts = pts

-- A buffer that is backwards or repeated is dropped.
abbrev pub is_behind : Option (ℕ × ℕ) → ℕ → Bool
is_behind none pts = false
is_behind (some (start, end)) pts = leb pts start || ltb (pts + millisecond) end

abbrev pub is_gap : Option (ℕ × ℕ) → ℕ → Bool
is_gap none pts = false
is_gap (some (start, end)) pts = ltb (end + 20 * millisecond) pts

abbrev pub or_zero : Option ℕ → ℕ
or_zero none = 0
or_zero (some n) = n

-- A buffer that is stamped for an appsrc, before the lock is held again.
pub record Prepared : Type 0 where
  pub src : ℕ
  pub start : ℕ
  pub end : ℕ
  pub gap : Bool

abbrev pub stamp : ℕ → Option ℕ → ℕ → Option (ℕ × ℕ) → Option Prepared
stamp src duration pts last =
    if is_behind last pts
    then none
    else some
        (record { src = src; start = pts; end = pts + or_zero duration; gap = is_gap last pts })

abbrev pub prepare_at : ℕ → Option ℕ → Option ℕ → Option ℕ → Option (ℕ × ℕ) → Option Prepared
prepare_at src player_base duration none last = none
prepare_at src player_base duration (some pts) last =
    stamp src duration (raise player_base last pts) last

abbrev pub prepare_for : Option ℕ → Program → Sample → Option ℕ → Option (ℕ × ℕ) → Option Prepared
prepare_for none p s player_base last = none
prepare_for (some src) p s player_base last =
    prepare_at src player_base s.duration (program_pts p s player_base) last

unfoldable pub prepare : Program → Sample → Option ℕ → Lane → Option Prepared
unfolding program_pts
prepare p s player_base lane = prepare_for lane.src p s player_base lane.last

abbrev pub is_same : Option ℕ → ℕ → Bool
is_same none src = false
is_same (some i) src = i == src

abbrev pub commit_if : Bool → Prepared → Lane → Lane × Option Pushed
commit_if false b lane = (lane, none)
commit_if true b lane = (
  record lane { last = some (b.start, b.end) },
  some (record { start = b.start; end = b.end; gap = b.gap; still = false }),
)

-- The buffer is queued unless the lane was replaced meanwhile.
abbrev pub commit : Prepared → Lane → Lane × Option Pushed
commit b lane = commit_if (is_same lane.src b.src) b lane

abbrev pub commit_any : Option Prepared → Lane → Lane × Option Pushed
commit_any none lane = (lane, none)
commit_any (some b) lane = commit b lane

-- A push with nothing between its two holds of the lock.
unfoldable pub push : Program → Sample → Option ℕ → Lane → Lane × Option Pushed
unfolding prepare
push p s player_base lane = commit_any (prepare p s player_base lane) lane

-- After what is queued, or at `now`.
abbrev pub next_slot : Option (ℕ × ℕ) → ℕ → ℕ
next_slot none now = now
next_slot (some (start, end)) now = max end now

abbrev pub still_into : Option ℕ → Option ℕ → ℕ → Lane → Lane × Option Pushed
still_into (some src) (some now) duration lane =
    let at = next_slot lane.last (now + lead) in
    (
      record lane { last = some (at, at + duration) },
      some (record { start = at; end = at + duration; gap = true; still = true }),
    )
still_into _ _ duration lane = (lane, none)

unfoldable pub push_still : Program → ℕ → Lane → Lane × Option Pushed
push_still p duration lane = still_into lane.src p.now duration lane

-- The base time a player must run at for its buffer at `running` to follow on.
unfoldable pub follow_on_base : Program → ℕ → Lane → Option ℕ
unfolding sub?
follow_on_base p running lane = do
  src ← lane.src
  now ← p.now
  base ← p.base_time
  sub? (base + next_slot lane.last (now + lead)) (lead + running)
