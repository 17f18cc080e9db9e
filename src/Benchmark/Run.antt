-- ===== src/Benchmark/Run.antt =====
-- node/src/benchmark/run.rs: the loop that runs the search. What the machine answers in an iteration is
-- a `Round`; what a step measures comes as the verdicts on its windows. `none` is a panic.
pub mod Rounds
pub mod Room
pub mod Ending
pub mod Capacity
pub mod Spin
mod Examples
use capture_room.Prelude.{
  ℕ, zero, suc, ◌+◌, ◌-◌, min, max, Bool, true, false, Option, none, some, List, [], ◌∷◌, ltb, leb,
  if◌then◌else◌, sub?, ◌>>=◌,
}
use capture_room.Benchmark.Search.{Search, Next, measure, done, feeds, best}
use capture_room.Benchmark.Search
use capture_room.Benchmark.Memory.{Budget}
use capture_room.Benchmark.Memory

abbrev measure_attempts : ℕ
measure_attempts = 2

-- The verdicts on the windows of a step of so many feeds: whether the quick one passes or is far over
-- the limit, and whether the full one of each attempt passes.
pub record Windows : Type 0 where
  pub quick_passed : ℕ → Bool
  pub far_over : ℕ → Bool
  pub full_passed : ℕ → ℕ → Bool

-- `for attempt in 1..=MEASURE_ATTEMPTS`: `left` attempts from `attempt` on.
abbrev pub attempts : ℕ → ℕ → ℕ → Windows → Option Bool
attempts zero attempt n w = none
attempts (suc left) attempt n w =
    let rest = attempts left (suc attempt) n w in
    if w.full_passed n attempt then some true else rest

-- A step of `n` feeds: whether it kept up, and in full.
unfoldable pub check : ℕ → Bool → Windows → Option Bool
check n full w =
    if full
    then attempts measure_attempts 1 n w
    else if w.quick_passed n
    then some false
    else if w.far_over n
    then none
    else attempts measure_attempts 1 n w

pub data Answer : Type 0 where
  -- The step ran: its windows, and the memory available after a step of so many feeds.
  measured : Windows → (ℕ → ℕ) → Answer
  -- Memory ran short when this many more feeds had started.
  short_of_memory : ℕ → Answer
  -- The run was cancelled, or failed.
  stopped : Answer

pub record Round : Type 0 where
  pub answer : Answer
  pub low_volume : Bool

pub data Reason : Type 0 where
  wouldnt_fit : ℕ → ℕ → Reason
  nearly_full : Reason
  ran_short : ℕ → Reason

pub record Run : Type 0 where
  pub search : Search
  pub budget : Budget
  pub capped : Option Reason
  pub running : ℕ
  pub sustainable : ℕ
  pub next_feeds : Option ℕ

pub data Turn : Type 0 where
  finished : ℕ → Turn
  aborted : Turn
  goes_on : Run → Turn

-- `set_feeds(n)` drains the feeds above `n`, or starts some more.
abbrev pub set_feeds : ℕ → ℕ → ℕ → ℕ
set_feeds n running started = if ltb n running then n else min n (running + started)

-- The end of an iteration that measured: what is published.
abbrev pub publish : Run → Option Turn
publish r = do
  next ← Search.next r.search
  some (goes_on (record r { sustainable = best r.search; next_feeds = feeds next }))

abbrev pub note_volume : ℕ → Bool → Run → Run
note_volume n low r =
    if low then record r { search = Search.cap n r.search; capped = some nearly_full } else r

abbrev pub judge : ℕ → Bool → Option Bool → Run → Run
judge n low none r = record r { search = Search.failed n r.search }
judge n low (some full) r = note_volume n low (record r { search = Search.passed n full r.search })

-- Back below `n` at once; draining from past the end would panic.
abbrev pub back_off : ℕ → ℕ → Run → Option Turn
back_off n started r = do
  below ← sub? n 1
  let back = min (best r.search) below
  _ ← sub? (set_feeds n r.running started) back
  publish
      (record r { running = back; search = Search.failed n r.search; capped = some (ran_short n) })

abbrev pub respond : ℕ → Bool → Bool → Answer → Run → Option Turn
respond n full low (measured w available) r = do
  forecast ← Search.next_if_passed r.search n full
  publish (
      judge n low (check n full w)
        (record r { running = n; budget = Memory.observe (available n) n r.budget }))
respond n full low (short_of_memory started) r = back_off n started r
respond n full low stopped r = some aborted

-- What `n` feeds are refused for: the number that would fit.
abbrev pub refused : Option ℕ → ℕ → ℕ → Option ℕ
refused none n lo = none
refused (some fit) n lo = if ltb lo n then (if ltb fit n then some fit else none) else none

abbrev pub admit : Option ℕ → ℕ → Bool → Round → Run → Option Turn
admit none n full round r = respond n full round.low_volume round.answer r
admit (some fit) n full round r = some (
    goes_on (record r {
      search = Search.cap (max fit (best r.search)) r.search;
      capped = some (wouldnt_fit n fit);
    }))

abbrev pub follow : (ℕ → ℕ → ℕ) → Next → Round → Run → Option Turn
follow quotient (done n) round r = some (finished n)
follow quotient (measure n full) round r =
    admit (refused (Memory.fits quotient r.budget) n (best r.search)) n full round r

-- One iteration of the loop.
unfoldable pub iterate : (ℕ → ℕ → ℕ) → Round → Run → Option Turn
unfolding check
iterate quotient round r = do next ← Search.next r.search; follow quotient next round r

-- The loop, for as many iterations as there are rounds.
unfoldable pub loop : (ℕ → ℕ → ℕ) → List Round → Run → Option Turn
loop quotient [] r = some (goes_on r)
loop quotient (round ∷ rounds) r = elim (iterate quotient round r) [
  | some (goes_on next) ↦ loop quotient rounds next
  | turn ↦ turn
]

unfoldable pub start : ℕ → Budget → Run
start max_feeds budget = record {
  search = Search.new max_feeds;
  budget = budget;
  capped = none;
  running = 0;
  sustainable = 0;
  next_feeds = none;
}
