-- ===== src/Feeds/Runs.antt =====
-- The feeds over any sequence of steps.
use capture_room.Prelude.{
  ℕ, ◌≡◌, refl, subst, inl, inr, Bool, true, false, Option, none, some, List, [], ◌∷◌, String,
  str_eq, str_eq→≡, ◌==◌, get, put, delete, contains, get-put, get-put_other, get-delete,
  get-delete_other, Bool-cases,
}
use capture_room.Feeds.{
  Monitor, Source, ReplayLeg, Replay, Feeds, is_current, StartedReplay, Started, settle_leg, is_fed,
  settle_replay, apply_replay, apply_monitor, apply_outputs, apply_one, apply, take_leg, unfeed,
  disconnect,
}
use capture_room.Feeds.Replays.{
  Feed, no_feed, from_start, from_monitor, feed_of, records_from, sync_with, sync_unless,
  sync_replay, sync_each, sync_replays, ReplayConfig, configured, new_replay, begin_clear,
  clear_unless, ReplayJob, put_config, set_replay, same_or_taken,
}
use capture_room.Feeds.Fed.{
  IsFedBy, FeedsReplay, FeedsOutputs, IsFed, at_key, apply_monitor-IsFed, apply_outputs-IsFed,
  put_replay-IsFed, settle_leg-IsFedBy,
}

apply_replay-IsFed :
    (id : String) (s : Option StartedReplay) (f : Feeds) → IsFed f → IsFed (apply_replay id s f).0
unfolding apply_replay is_current
apply_replay-IsFed id none f h = h
apply_replay-IsFed id (some s) f h = by_replay (get id f.replays) (h.replays id)
  where
    by_replay :
        (o : Option Replay) → FeedsReplay (get id f.monitors) o → IsFed (settle_replay o id s f).0
    by_replay none k = h
    by_replay (some r) k = elim (Bool-cases (r.index == s.index)) [
      | inl e ↦ rw e (
          put_replay-IsFed id (settle_leg (is_fed id s.leg f) (r.codec == s.codec) s.leg r).0 f
            (settle_leg-IsFedBy (get id f.monitors) (is_fed id s.leg f) (r.codec == s.codec) s.leg r
              k (λ l e c. subst (λ o. is_fed id o f ≡ true) e c))
            h)
      | inr e ↦ rw e h
    ]

apply-IsFed : (started : List Started) (f : Feeds) → IsFed f → IsFed (apply started f).0
unfolding apply_one
apply-IsFed [] f h = h
apply-IsFed (s ∷ started) f h =
    let a = apply_monitor s.id s.monitor f in
    let b = apply_outputs s.id s.outputs a.0 in
    apply-IsFed started (apply_replay s.id s.replay b.0).0 (
      apply_replay-IsFed s.id s.replay b.0
        (apply_outputs-IsFed s.id s.outputs a.0 (apply_monitor-IsFed s.id s.monitor f h)))

disconnect-IsFed : (id : String) (f : Feeds) → IsFed f → IsFed (disconnect id f)
unfolding disconnect
disconnect-IsFed id f h = by_replay (get id f.replays) refl
  where
    by_replay :
        (o : Option Replay)
        → get id f.replays ≡ o
        → IsFed (
            unfeed o id
              (record f { outputs = delete id f.outputs; monitors = delete id f.monitors }))
    by_replay none e = record {
      outputs = outputs;
      replays = λ j.
          at_key (λ j. FeedsReplay (get j (delete id f.monitors)) (get j f.replays)) id j (rw e tt)
            (λ d. rw (get-delete_other id j f.monitors d) (h.replays j));
    }
      where
        outputs :
            (j : String) → FeedsOutputs (get j (delete id f.monitors)) (get j (delete id f.outputs))
        outputs j =
            at_key (λ j. FeedsOutputs (get j (delete id f.monitors)) (get j (delete id f.outputs)))
              id j (rw (get-delete id f.outputs) tt)
              (λ d.
                rw (get-delete_other id j f.monitors d, get-delete_other id j f.outputs d)
                  (h.outputs j))
    by_replay (some r) e = record {
      outputs = λ j.
          at_key (λ j. FeedsOutputs (get j (delete id f.monitors)) (get j (delete id f.outputs))) id
            j (rw (get-delete id f.outputs) tt)
            (λ d.
              rw (get-delete_other id j f.monitors d, get-delete_other id j f.outputs d)
                (h.outputs j));
      replays = λ j.
          at_key
            (λ j.
              FeedsReplay (get j (delete id f.monitors)) (get j (put id (take_leg r) f.replays)))
            id j (rw (get-put id (take_leg r) f.replays) tt)
            (λ d.
              rw (get-delete_other id j f.monitors d, get-put_other id j (take_leg r) f.replays d)
                (h.replays j));
    }

sync_with-IsFedBy :
    (m : Option Monitor) (feed : Feed) (r : Replay)
    → IsFedBy m r.leg
    → IsFedBy m (sync_replay feed r).0.leg
unfolding sync_replay
sync_with-IsFedBy m feed r h = by_starting r.starting
  where
    by_feed : (feed : Feed) → IsFedBy m (sync_with feed r).0.leg
    by_feed no_feed = tt
    by_feed from_start = tt
    by_feed (from_monitor n) = elim (Bool-cases (records_from (from_monitor n) r)) [
      | inl e ↦ rw e h
      | inr e ↦ rw e tt
    ]

    by_starting : (b : Bool) → IsFedBy m (sync_unless b feed r).0.leg
    by_starting true = h
    by_starting false = by_feed feed

-- What a look at a replay makes of it.
abbrev pub synced : Feed → Option Replay → Option Replay
synced feed none = none
synced feed (some r) = some (sync_replay feed r).0

pub get-sync_each :
    (starts : List String) (ms : List (String × Monitor)) (rs : List (String × Replay))
    (id : String)
    → get id (sync_each starts ms rs).0
      ≡ synced (feed_of (contains id starts) (get id ms)) (get id rs)
get-sync_each starts ms [] id = refl
get-sync_each starts ms ((j, r) ∷ rs) id = elim (Bool-cases (str_eq j id)) [
  | inl e ↦ rw (e, str_eq→≡ j id e) refl
  | inr e ↦ rw e (get-sync_each starts ms rs id)
]

sync_replays-IsFed : (starts : List String) (f : Feeds) → IsFed f → IsFed (sync_replays starts f).0
unfolding sync_replays
sync_replays-IsFed starts f h = record {
  outputs = h.outputs;
  replays = λ id.
      rw (get-sync_each starts f.monitors f.replays id)
        (by_replay id (get id f.replays) (h.replays id));
}
  where
    by_replay :
        (id : String) (o : Option Replay)
        → FeedsReplay (get id f.monitors) o
        → FeedsReplay
            (get id f.monitors)
            (synced (feed_of (contains id starts) (get id f.monitors)) o)
    by_replay id none k = tt
    by_replay id (some r) k =
        sync_with-IsFedBy (get id f.monitors) (feed_of (contains id starts) (get id f.monitors)) r k

set_replay-IsFed :
    (id : String) (c : Option ReplayConfig) (index : ℕ) (f : Feeds)
    → IsFed f
    → IsFed (set_replay id c index f).0
unfolding set_replay
set_replay-IsFed id none index f h = record {
  outputs = h.outputs;
  replays = λ j.
      at_key (λ j. FeedsReplay (get j f.monitors) (get j (delete id f.replays))) id j
        (rw (get-delete id f.replays) tt)
        (λ d. rw (get-delete_other id j f.replays d) (h.replays j));
}
set_replay-IsFed id (some c) index f h = by_replay (get id f.replays) (h.replays id)
  where
    kept :
        (b : Bool) (r : Replay)
        → IsFedBy (get id f.monitors) r.leg
        → IsFedBy (get id f.monitors) (same_or_taken b r).leg
    kept true r k = k
    kept false r k = tt

    cleared :
        (b : Bool) (r : Replay) (s : Feeds × List (String × ReplayJob))
        → IsFedBy (get id s.0.monitors) r.leg
        → IsFed s.0
        → IsFed (clear_unless b r id s).0
    cleared true r s l k = k
    cleared false r s l k = put_replay-IsFed id (record r { starting = true }) s.0 l k

    begun :
        (o : Option Replay) (s : Feeds × List (String × ReplayJob))
        → get id s.0.replays ≡ o
        → IsFed s.0
        → IsFed (begin_clear o id s).0
    begun none s e k = k
    begun (some r) s e k =
        cleared r.starting r s (subst (FeedsReplay (get id s.0.monitors)) e (k.replays id)) k

    by_replay :
        (o : Option Replay)
        → FeedsReplay (get id f.monitors) o
        → IsFed (put_config o id c index f).0
    by_replay (some r) k =
        sync_replays-IsFed [] (record f { replays = put id (configured c r) f.replays })
          (put_replay-IsFed id (configured c r) f (kept (r.codec == c.codec) r k) h)
    by_replay none k =
        let s = sync_replays [] (record f { replays = put id (new_replay c index) f.replays }) in
        begun (get id s.0.replays) s refl (
          sync_replays-IsFed [] (record f { replays = put id (new_replay c index) f.replays })
            (put_replay-IsFed id (new_replay c index) f tt h))

-- The leg of a replay reports its error.
abbrev pub failed_leg : Replay → ReplayLeg → ℕ → String → Replay
failed_leg r l n e = record r { leg = some (record l { error = some e }, n) }

-- The feeds after any steps; what a work has started may be applied at any time, whatever went before, and a leg
-- may fail at any time.
pub data Reaches : Feeds → Type 0 where
  empty :
      Reaches
        (record { sources = []; monitors = []; start_errors = []; outputs = []; replays = [] })
  lists : {f : Feeds} (sources : List Source) → Reaches f → Reaches (record f { sources = sources })
  applies : {f : Feeds} (started : List Started) → Reaches f → Reaches (apply started f).0
  disconnects : {f : Feeds} (id : String) → Reaches f → Reaches (disconnect id f)
  loses_outputs :
      {f : Feeds} (id : String) → Reaches f → Reaches (record f { outputs = delete id f.outputs })
  fails :
      {f : Feeds} (id : String) (r : Replay) (l : ReplayLeg) (n : ℕ) (e : String)
      → get id f.replays ≡ some r
      → r.leg ≡ some (l, n)
      → Reaches f
      → Reaches (record f { replays = put id (failed_leg r l n e) f.replays })
  syncs : {f : Feeds} (starts : List String) → Reaches f → Reaches (sync_replays starts f).0
  sets :
      {f : Feeds} (id : String) (c : Option ReplayConfig) (index : ℕ)
      → Reaches f
      → Reaches (set_replay id c index f).0

drop-IsFed :
    (id : String) (f : Feeds) → IsFed f → IsFed (record f { outputs = delete id f.outputs })
drop-IsFed id f h = record {
  outputs = λ j.
      at_key (λ j. FeedsOutputs (get j f.monitors) (get j (delete id f.outputs))) id j
        (rw (get-delete id f.outputs) tt)
        (λ d. rw (get-delete_other id j f.outputs d) (h.outputs j));
  replays = h.replays;
}

Reaches-IsFed : (f : Feeds) → Reaches f → IsFed f
Reaches-IsFed f empty = record { outputs = λ id. tt; replays = λ id. tt }
Reaches-IsFed f (lists {f = g} sources h) =
    let k = Reaches-IsFed g h in record { outputs = k.outputs; replays = k.replays }
Reaches-IsFed f (applies {f = g} started h) = apply-IsFed started g (Reaches-IsFed g h)
Reaches-IsFed f (disconnects {f = g} id h) = disconnect-IsFed id g (Reaches-IsFed g h)
Reaches-IsFed f (loses_outputs {f = g} id h) = drop-IsFed id g (Reaches-IsFed g h)
Reaches-IsFed f (fails {f = g} id r l n e found leg h) =
    let k = Reaches-IsFed g h in
    put_replay-IsFed id (failed_leg r l n e) g
      (subst (IsFedBy (get id g.monitors)) leg
        (subst (FeedsReplay (get id g.monitors)) found (k.replays id)))
      k
Reaches-IsFed f (syncs {f = g} starts h) = sync_replays-IsFed starts g (Reaches-IsFed g h)
Reaches-IsFed f (sets {f = g} id c index h) = set_replay-IsFed id c index g (Reaches-IsFed g h)

-- Whatever starts, goes and comes back in whatever order, and however late what was started is put in place:
-- a channel's outputs and a replay's leg always run on the monitor that their source has now.
pub Reaches-feeds :
    (f : Feeds)
    → Reaches f
    → (id : String)
    → FeedsOutputs (get id f.monitors) (get id f.outputs)
      × FeedsReplay (get id f.monitors) (get id f.replays)
Reaches-feeds f h id = let k = Reaches-IsFed f h in (k.outputs id, k.replays id)
