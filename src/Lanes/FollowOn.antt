-- ===== src/Lanes/FollowOn.antt =====
-- A clip that is started to follow on does.
use capture_room.Prelude.{
  ℕ, ◌+◌, ◌<◌, ◌≡◌, refl, false, Option, none, some, arith, sub?, ◌>>=◌, ap, ◌∙◌, subst,
}
use capture_room.Lanes.{
  Lane, Program, Sample, push, prepare, prepare_for, prepare_at, stamp, commit_any, is_behind,
  is_gap, next_slot, or_zero, program_pts, lead, follow_on_base,
}
use capture_room.Lanes.Order.{is_same_lem}

-- The last buffer of a lane shows for some time.
abbrev pub IsShown : Option (ℕ × ℕ) → Type 0
IsShown none = Unit {0}
IsShown (some (start, end)) = start < end

not_behind :
    (last : Option (ℕ × ℕ)) (now : ℕ) → IsShown last → is_behind last (next_slot last now) ≡ false
not_behind none now h = refl
not_behind (some (start, end)) now h = ground (arith, h)

-- What the base time makes of a buffer's running time.
pts_is :
    (slot running origin base : ℕ)
    → sub? (origin + slot) (lead + running) ≡ some base
    → sub? (base + running + lead) origin ≡ some slot
unfolding sub?
pts_is slot running origin base e = ground (arith, e)

-- A base time was found: the lane has an appsrc, and the program a base time.
Found : Option ℕ → Option ℕ → ℕ → ℕ → ℕ → Type 0
Found src origin slot running base =
    (i : ℕ) × (o : ℕ) × (src ≡ some i)
    × (origin ≡ some o)
    × (sub? (o + slot) (lead + running) ≡ some base)

found :
    (src origin : Option ℕ) (slot running base : ℕ)
    → (src >>= λ i. origin >>= λ o. sub? (o + slot) (lead + running)) ≡ some base
    → Found src origin slot running base
unfolding Found
found none origin slot running base e = absurd (cc)
found (some i) none slot running base e = absurd (cc)
found (some i) (some o) slot running base e = (i, o, refl, refl, e)

pts_found :
    (p : Program) (s : Sample) (slot running o base : ℕ)
    → s.running ≡ some running
    → p.base_time ≡ some o
    → sub? (o + slot) (lead + running) ≡ some base
    → program_pts p s (some base) ≡ some slot
unfolding program_pts
pts_found p s slot running o base r b e = simp (r, b) (pts_is slot running o base e)

stamp_next :
    (src : ℕ) (duration : Option ℕ) (now : ℕ) (lane : Lane)
    → IsShown lane.last
    → lane.src ≡ some src
    → let slot = next_slot lane.last now in
      commit_any (stamp src duration slot lane.last) lane ≡ (
        record lane { last = some (slot, slot + or_zero duration) },
        some (record {
          start = slot;
          end = slot + or_zero duration;
          gap = is_gap lane.last slot;
          still = false;
        }),
      )
stamp_next src duration now lane h k =
    rw (not_behind lane.last now h, is_same_lem lane.src src k) refl

-- In a lane whose last buffer, if it has one, has a length: with the base time that `follow_on_base`
-- gives for its first frame, a player's first buffer is queued, at the end of what the lane has
-- queued, or now (plus the lead) if that is later.
pub push-follow_on_base :
    (p : Program) (s : Sample) (lane : Lane) (running now base : ℕ)
    → p.now ≡ some now
    → s.running ≡ some running
    → IsShown lane.last
    → follow_on_base p running lane ≡ some base
    → let slot = next_slot lane.last (now + lead) in
      push p s (some base) lane ≡ (
        record lane { last = some (slot, slot + or_zero s.duration) },
        some (record {
          start = slot;
          end = slot + or_zero s.duration;
          gap = is_gap lane.last slot;
          still = false;
        }),
      )
unfolding push prepare follow_on_base Found
push-follow_on_base p s lane running now base n r shown e =
    let slot = next_slot lane.last (now + lead) in
    let e1 =
      subst
        (λ (t : Option ℕ).
          (lane.src >>= λ i. t >>= λ m.
          p.base_time >>= λ o. sub? (o + next_slot lane.last (m + lead)) (lead + running))
          ≡ some base)
        n e in
    let (i, o, hi, ho, hb) = found lane.src p.base_time slot running base e1 in
    ap (λ (x : Option ℕ). commit_any (prepare_for x p s (some base) lane.last) lane) hi
    ∙ ap (λ (x : Option ℕ). commit_any (prepare_at i (some base) s.duration x lane.last) lane)
        (pts_found p s slot running o base r ho hb)
    ∙ stamp_next i s.duration (now + lead) lane shown hi
