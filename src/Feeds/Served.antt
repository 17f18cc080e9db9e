-- ===== src/Feeds/Served.antt =====
-- What a look at the replays makes of each, and the starts that it hands to the work.
use capture_room.Prelude.{
  arith, ℕ, ◌≡◌, refl, Bool, true, false, Option, none, some, List, [], ◌∷◌, String, get, contains,
  Bool-cases, inl, inr, Option-cases, ◌&&◌, and_true, ==_iff,
}
use capture_room.Feeds.{Monitor, Replay, ReplayLeg, Feeds, recording, is_recording_leg}
use capture_room.Feeds.Replays.{
  from_start, from_monitor, ReplayJob, is_on, feed_of, records_from, sync_unless, sync_replay,
  sync_each, sync_replays, plan,
}

-- A leg runs on the monitor, without an error.
abbrev pub Records : Monitor → Option (ReplayLeg × ℕ) → Type 0
Records m none = ⊥
Records m (some (l, n)) = (n ≡ m.serial) × (l.error ≡ none)

-- What a look does with a replay whose source has the monitor `m`, if any, or has one that is to start: the replay then,
-- and what it hands to the work.
pub data Served (starts : Bool) (m : Option Monitor) (r : Replay)
    : Replay → Option ReplayJob → Type 0 where
  -- A start is under way already.
  underway : r.starting ≡ true → Served starts m r r none
  -- It records from the monitor that its source has and keeps.
  records : (n : Monitor) → starts ≡ false → m ≡ some n → Records n r.leg → Served starts m r r none
  -- There is nothing to record from: the leg goes.
  unfed :
      (after : Replay)
      → r.starting ≡ false
      → starts ≡ false
      → m ≡ none
      → after ≡ record r { leg = none }
      → Served starts m r after none
  -- It is to start on the monitor that the work starts.
  begins_later :
      (after : Replay) (job : ReplayJob)
      → r.starting ≡ false
      → starts ≡ true
      → after ≡ record r { leg = none; starting = true }
      → job ≡ record { feed = some from_start; codec = r.codec; index = r.index; clear = false }
      → Served starts m r after (some job)
  -- It is to start on the monitor that its source has, from which it does not record.
  begins :
      (n : Monitor) (after : Replay) (job : ReplayJob)
      → r.starting ≡ false
      → starts ≡ false
      → m ≡ some n
      → ¬ (Records n r.leg)
      → after ≡ record r { leg = none; starting = true }
      → job
        ≡ record { feed = some (from_monitor n); codec = r.codec; index = r.index; clear = false }
      → Served starts m r after (some job)

-- The replays before and after, in order, and the starts handed to the work: one for each replay that now starts, and no others.
pub data Serves (starts : List String) (monitors : List (String × Monitor))
    : List (String × Replay) → List (String × Replay) → List (String × ReplayJob) → Type 0 where
  done : Serves starts monitors [] [] []
  leaves :
      {before after : List (String × Replay)} {jobs : List (String × ReplayJob)} (id : String)
      (r s : Replay)
      → Served (contains id starts) (get id monitors) r s none
      → Serves starts monitors before after jobs
      → Serves starts monitors ((id, r) ∷ before) ((id, s) ∷ after) jobs
  hands :
      {before after : List (String × Replay)} {jobs : List (String × ReplayJob)} (id : String)
      (r s : Replay) (job : ReplayJob)
      → Served (contains id starts) (get id monitors) r s (some job)
      → Serves starts monitors before after jobs
      → Serves starts monitors ((id, r) ∷ before) ((id, s) ∷ after) ((id, job) ∷ jobs)

records_from-Records :
    (m : Monitor) (r : Replay) → records_from (from_monitor m) r ≡ true → Records m r.leg
unfolding recording
records_from-Records m r e = by_leg r.leg (and_true (is_on m.serial r.leg) (recording r) e)
  where
    by_leg :
        (l : Option (ReplayLeg × ℕ))
        → (is_on m.serial l ≡ true) × (is_recording_leg l ≡ true)
        → Records m l
    by_leg none k = absurd (cc)
    by_leg (some (l, n)) k = (
      (==_iff n m.serial).0 k.0,
      elim (Option-cases l.error) [ inl e ↦ e | inr (x, e) ↦ absurd (ground (arith, e, k.1)) ],
    )

Records-records_from :
    (m : Monitor) (r : Replay) → records_from (from_monitor m) r ≡ false → ¬ (Records m r.leg)
unfolding recording
Records-records_from m r e = by_leg r.leg e
  where
    by_leg :
        (l : Option (ReplayLeg × ℕ))
        → (is_on m.serial l && is_recording_leg l) ≡ false
        → ¬ (Records m l)
    by_leg none e k = k
    by_leg (some (l, n)) e k = ground (arith, e, (==_iff n m.serial).1 k.0, k.1)

sync_replay-Served :
    (starts : Bool) (m : Option Monitor) (r : Replay)
    → Served starts m r (sync_replay (feed_of starts m) r).0 (sync_replay (feed_of starts m) r).1
unfolding sync_replay
sync_replay-Served starts m r = by_starting r.starting refl starts m
  where
    by_starting :
        (b : Bool)
        → r.starting ≡ b
        → (starts : Bool) (m : Option Monitor)
        → Served starts m r
            (sync_unless b (feed_of starts m) r).0
            (sync_unless b (feed_of starts m) r).1
    by_starting true e starts m = underway e
    by_starting false e true m = begins_later _ _ e refl refl refl
    by_starting false e false none = unfed _ e refl refl refl
    by_starting false e false (some m) = elim (Bool-cases (records_from (from_monitor m) r)) [
      | inl k ↦ rw k (records m refl refl (records_from-Records m r k))
      | inr k ↦ rw k (begins m _ _ e refl refl (Records-records_from m r k) refl refl)
    ]

-- After a look at the replays, in which the work starts the monitors of `starts`: one that was starting, or that
-- records without an error from its source's monitor, which is not about to be started, is as it was; one whose source neither has nor
-- gets a monitor has lost its leg; and each other has lost its leg and is starting, and exactly for these the work has a start, on the
-- source's monitor or the one that starts, with the replay's codec and index.
pub sync_replays-Serves :
    (starts : List String) (f : Feeds)
    → Serves starts f.monitors f.replays (sync_replays starts f).0.replays (sync_replays starts f).1
unfolding sync_replays
sync_replays-Serves starts f = each f.replays
  where
    planned :
        (id : String) (r s : Replay) (o : Option ReplayJob) (before after : List (String × Replay))
        (jobs : List (String × ReplayJob))
        → Served (contains id starts) (get id f.monitors) r s o
        → Serves starts f.monitors before after jobs
        → Serves starts f.monitors ((id, r) ∷ before) ((id, s) ∷ after) (plan id o jobs)
    planned id r s none before after jobs h k = leaves id r s h k
    planned id r s (some job) before after jobs h k = hands id r s job h k

    each :
        (rs : List (String × Replay))
        → Serves starts f.monitors rs
            (sync_each starts f.monitors rs).0
            (sync_each starts f.monitors rs).1
    each [] = done
    each ((id, r) ∷ rs) =
        planned id r _ _ rs _ _ (sync_replay-Served (contains id starts) (get id f.monitors) r)
          (each rs)
