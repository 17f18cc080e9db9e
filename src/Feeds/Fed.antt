-- ===== src/Feeds/Fed.antt =====
-- What runs is fed by its source's current monitor.
use capture_room.Prelude.{
  ℕ, ◌≡◌, refl, subst, inl, inr, Bool, true, false, Option, none, some, String, str_eq, str_eq→≡,
  get, put, get-put, get-put_other, Bool-cases,
}
use capture_room.Feeds.{
  Monitor, ChannelOutputs, ReplayLeg, Replay, Feeds, is_serial, is_current, Pipeline, up, down,
  LegResult, leg_up, leg_down, is_listed, put_monitor, apply_pipeline, apply_monitor, put_outputs,
  apply_outputs, settle_leg,
}

-- A monitor feeds the leg of a replay, if it has one.
abbrev pub IsFedBy : Option Monitor → Option (ReplayLeg × ℕ) → Type 0
IsFedBy m none = Unit
IsFedBy m (some l) = is_serial m l.1 ≡ true

abbrev pub FeedsReplay : Option Monitor → Option Replay → Type 0
FeedsReplay m none = Unit
FeedsReplay m (some r) = IsFedBy m r.leg

abbrev pub FeedsOutputs : Option Monitor → Option ChannelOutputs → Type 0
FeedsOutputs m none = Unit
FeedsOutputs m (some o) = is_serial m o.monitor ≡ true

pub record IsFed (f : Feeds) : Type 0 where
  pub outputs : (id : String) → FeedsOutputs (get id f.monitors) (get id f.outputs)
  pub replays : (id : String) → FeedsReplay (get id f.monitors) (get id f.replays)

pub at_key : (P : String → Type 0) (id j : String) → P id → (str_eq id j ≡ false → P j) → P j
at_key P id j h k = elim (Bool-cases (str_eq id j)) [
  | inl e ↦ subst P (str_eq→≡ id j e) h
  | inr e ↦ k e
]

unfed_outputs :
    (m : Option Monitor) (o : Option ChannelOutputs) → FeedsOutputs none o → FeedsOutputs m o
unfed_outputs m none h = tt
unfed_outputs m (some o) h = absurd (cc)

unfed_leg : (m : Option Monitor) (l : Option (ReplayLeg × ℕ)) → IsFedBy none l → IsFedBy m l
unfed_leg m none h = tt
unfed_leg m (some l) h = absurd (cc)

unfed_replay : (m : Option Monitor) (r : Option Replay) → FeedsReplay none r → FeedsReplay m r
unfed_replay m none h = tt
unfed_replay m (some r) h = unfed_leg m r.leg h

pub apply_monitor-IsFed :
    (id : String) (p : Option (ℕ × Pipeline)) (f : Feeds) → IsFed f → IsFed (apply_monitor id p f).0
unfolding apply_monitor
apply_monitor-IsFed id none f h = h
apply_monitor-IsFed id (some p) f h = by_pipeline p.1 (is_listed p.0 f.sources)
  where
    by_old :
        (o : Option Monitor) (listed : Bool) (m : Monitor)
        → get id f.monitors ≡ o
        → IsFed (put_monitor o listed id m f).0
    by_old (some old) listed m e = record { outputs = h.outputs; replays = h.replays }
    by_old none false m e = record { outputs = h.outputs; replays = h.replays }
    by_old none true m e = record {
      outputs = λ j.
          at_key (λ j. FeedsOutputs (get j (put id m f.monitors)) (get j f.outputs)) id j
            (unfed_outputs (get id (put id m f.monitors)) (get id f.outputs)
              (subst (λ o. FeedsOutputs o (get id f.outputs)) e (h.outputs id)))
            (λ d. rw (get-put_other id j m f.monitors d) (h.outputs j));
      replays = λ j.
          at_key (λ j. FeedsReplay (get j (put id m f.monitors)) (get j f.replays)) id j
            (unfed_replay (get id (put id m f.monitors)) (get id f.replays)
              (subst (λ o. FeedsReplay o (get id f.replays)) e (h.replays id)))
            (λ d. rw (get-put_other id j m f.monitors d) (h.replays j));
    }

    by_pipeline : (p : Pipeline) (listed : Bool) → IsFed (apply_pipeline listed id p f).0
    by_pipeline (up m) listed = by_old (get id f.monitors) listed m refl
    by_pipeline (down e) true = record { outputs = h.outputs; replays = h.replays }
    by_pipeline (down e) false = h

pub apply_outputs-IsFed :
    (id : String) (o : Option ChannelOutputs) (f : Feeds) → IsFed f → IsFed (apply_outputs id o f).0
unfolding apply_outputs is_current
apply_outputs-IsFed id none f h = h
apply_outputs-IsFed id (some o) f h =
    by_old (get id f.outputs) (is_serial (get id f.monitors) o.monitor) refl
  where
    by_old :
        (old : Option ChannelOutputs) (c : Bool)
        → is_serial (get id f.monitors) o.monitor ≡ c
        → IsFed (put_outputs old c id o f).0
    by_old (some old) c e = h
    by_old none false e = h
    by_old none true e = record {
      outputs = λ j.
          at_key (λ j. FeedsOutputs (get j f.monitors) (get j (put id o f.outputs))) id j
            (rw (get-put id o f.outputs) e)
            (λ d. rw (get-put_other id j o f.outputs d) (h.outputs j));
      replays = h.replays;
    }

-- A replay is replaced by one whose leg is fed.
pub put_replay-IsFed :
    (id : String) (r : Replay) (f : Feeds)
    → IsFedBy (get id f.monitors) r.leg
    → IsFed f
    → IsFed (record f { replays = put id r f.replays })
put_replay-IsFed id r f l h = record {
  outputs = h.outputs;
  replays = λ j.
      at_key (λ j. FeedsReplay (get j f.monitors) (get j (put id r f.replays))) id j
        (rw (get-put id r f.replays) l) (λ d. rw (get-put_other id j r f.replays d) (h.replays j));
}

pub settle_leg-IsFedBy :
    (m : Option Monitor) (current same : Bool) (l : Option (LegResult × ℕ)) (r : Replay)
    → IsFedBy m r.leg
    → ((k : LegResult × ℕ) → l ≡ some k → current ≡ true → is_serial m k.1 ≡ true)
    → IsFedBy m (settle_leg current same l r).0.leg
settle_leg-IsFedBy m current same none r h k = h
settle_leg-IsFedBy m true true (some (leg_up l, n)) r h k = k (leg_up l, n) refl refl
settle_leg-IsFedBy m true false (some (leg_up l, n)) r h k = h
settle_leg-IsFedBy m false same (some (leg_up l, n)) r h k = h
settle_leg-IsFedBy m true same (some (leg_down e, n)) r h k = h
settle_leg-IsFedBy m false same (some (leg_down e, n)) r h k = h
