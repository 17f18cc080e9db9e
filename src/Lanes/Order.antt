-- ===== src/Lanes/Order.antt =====
-- What a lane queues is in order.
use capture_room.Prelude.{
  ℕ, ◌+◌, ◌≤◌, ◌<◌, ◌≡◌, refl, Bool, true, false, Option, none, some, List, [], ◌∷◌, arith, ==_iff,
  Bool-cases, inl, inr, subst, sym, ap, ◌∙◌,
}
use capture_room.Lanes.{
  Lane, Program, Sample, Pushed, push, push_still, prepare, prepare_for, prepare_at, is_same,
  commit_if, commit_any, still_into, raise, is_behind, next_slot, millisecond, or_zero, is_gap,
  program_pts, lead,
}

-- A player's buffer, pushed with nothing in between; the second half of a push whose first half saw the lane `before`; or a still.
pub data Act : Type 0 where
  pushes : Program → Sample → Option ℕ → Act
  resumes : Program → Sample → Option ℕ → Lane → Act
  stills : Program → ℕ → Act

abbrev pub act : Act → Lane → Lane × Option Pushed
act (pushes p s player_base) lane = push p s player_base lane
act (resumes p s player_base before) lane = commit_any (prepare p s player_base before) lane
act (stills p duration) lane = push_still p duration lane

-- Between the halves of a push nothing was queued in the lane, unless it is another lane than the one that the first half saw.
abbrev pub Alone : Act → Lane → Type 0
Alone (resumes p s player_base before) lane = before.src ≡ lane.src → before.last ≡ lane.last
Alone _ lane = Unit {0}

abbrev pub AloneAll : List Act → Lane → Type 0
AloneAll [] lane = Unit {0}
AloneAll (a ∷ rest) lane = Alone a lane × AloneAll rest (act a lane).0

abbrev pub note : Option Pushed → List Pushed → List Pushed
note none rest = rest
note (some p) rest = p ∷ rest

-- The buffers that a lane queues.
pub queued : List Act → Lane → List Pushed
queued [] lane = []
queued (a ∷ rest) lane = let r = act a lane in note r.1 (queued rest r.0)

-- A player's buffer starts after the last one does, a still not before; it overlaps by 1 ms at most.
abbrev pub Starts : Bool → ℕ → ℕ → Type 0
Starts true before start = before ≤ start
Starts false before start = before < start

abbrev pub After : Option (ℕ × ℕ) → Pushed → Type 0
After none p = Unit {0}
After (some (start, end)) p = Starts p.still start p.start × (end ≤ p.start + millisecond)

abbrev pub Rising : Option (ℕ × ℕ) → List Pushed → Type 0
Rising last [] = Unit {0}
Rising last (p ∷ ps) = After last p × Rising (some (p.start, p.end)) ps

abbrev pub IsSpan : Option (ℕ × ℕ) → Type 0
IsSpan none = Unit {0}
IsSpan (some (start, end)) = start ≤ end

-- What a step leaves: the lane as it was, or the buffer that it queued as the last one.
abbrev Stepped : Lane → Lane × Option Pushed → Type 0
Stepped lane (after, none) = after.last ≡ lane.last
Stepped lane (after, some p) =
    After lane.last p × (p.start ≤ p.end) × (after.last ≡ some (p.start, p.end))

pub is_same_lem : (o : Option ℕ) (src : ℕ) → o ≡ some src → is_same o src ≡ true
is_same_lem none src e = absurd (cc)
is_same_lem (some i) src e = (==_iff i src).1 (cc)

is_same_src : (o : Option ℕ) (src : ℕ) → is_same o src ≡ true → o ≡ some src
is_same_src none src e = absurd (cc)
is_same_src (some i) src e = ap some ((==_iff i src).0 e)

resume-Stepped :
    (p : Program) (s : Sample) (player_base : Option ℕ) (before lane : Lane)
    → (before.src ≡ lane.src → before.last ≡ lane.last)
    → Stepped lane (commit_any (prepare p s player_base before) lane)
unfolding prepare
resume-Stepped p s player_base before lane alone = by_src before.src refl
  where
    after :
        (last : Option (ℕ × ℕ)) (pts end : ℕ) (g : Bool)
        → is_behind last pts ≡ false
        → After last (record { start = pts; end = end; gap = g; still = false })
    after none pts end g e = tt
    after (some (start, until)) pts end g e = ground (arith, e)

    stamped :
        (src pts end : ℕ) (g : Bool)
        → before.src ≡ some src
        → is_behind before.last pts ≡ false
        → (b : Bool) → is_same lane.src src ≡ b
        → pts ≤ end
        → Stepped lane (commit_if b (record { src = src; start = pts; end = end; gap = g }) lane)
    stamped src pts end g h e false k l = refl
    stamped src pts end g h e true k l =
        let same : before.last ≡ lane.last = alone (h ∙ sym (is_same_src lane.src src k)) in
        (
          subst
              (λ (o : Option (ℕ × ℕ)).
                After o (record { start = pts; end = end; gap = g; still = false }))
              same (after before.last pts end g e),
          l,
          refl,
        )

    by_pts :
        (src : ℕ) (o : Option ℕ)
        → before.src ≡ some src
        → Stepped lane (commit_any (prepare_at src player_base s.duration o before.last) lane)
    by_pts src none h = refl
    by_pts src (some pts) h =
        let raised = raise player_base before.last pts in
        elim (Bool-cases (is_behind before.last raised)) [
          | inl e ↦ rw e refl
          | inr e ↦ rw e (
              stamped src raised (raised + or_zero s.duration) (is_gap before.last raised) h e
                (is_same lane.src src) refl (omega arith))
        ]

    by_src :
        (o : Option ℕ)
        → before.src ≡ o
        → Stepped lane (commit_any (prepare_for o p s player_base before.last) lane)
    by_src none h = refl
    by_src (some src) h = by_pts src (program_pts p s player_base) h

push-Stepped :
    (p : Program) (s : Sample) (player_base : Option ℕ) (lane : Lane)
    → Stepped lane (push p s player_base lane)
unfolding push
push-Stepped p s player_base lane = resume-Stepped p s player_base lane lane λ e. refl

push_still-Stepped :
    (p : Program) (duration : ℕ) (lane : Lane)
    → IsSpan lane.last
    → Stepped lane (push_still p duration lane)
unfolding push_still
push_still-Stepped p duration lane h = by_src lane.src p.now
  where
    after :
        (last : Option (ℕ × ℕ)) (now : ℕ)
        → IsSpan last
        → After last (record {
          start = next_slot last now;
          end = next_slot last now + duration;
          gap = true;
          still = true;
        })
    after none now h = tt
    after (some (start, end)) now h = (omega (arith, h), omega arith)

    by_src : (o now : Option ℕ) → Stepped lane (still_into o now duration lane)
    by_src none now = refl
    by_src (some src) none = refl
    by_src (some src) (some now) = (after lane.last (now + lead) h, omega arith, refl)

act-Stepped : (a : Act) (lane : Lane) → Alone a lane → IsSpan lane.last → Stepped lane (act a lane)
act-Stepped (pushes p s player_base) lane k h = push-Stepped p s player_base lane
act-Stepped (resumes p s player_base before) lane k h = resume-Stepped p s player_base before lane k
act-Stepped (stills p duration) lane k h = push_still-Stepped p duration lane h

-- Whatever is pushed into a lane (whose last buffer so far does not end before it starts), by players
-- or as stills, at whatever times, if nothing is queued in the lane between the two holds of the lock in a push: each buffer that it queues starts after
-- the one before does (a still not before it), and begins at most 1 ms before the
-- end of that one. A push that began on another lane, which was replaced, may end in any state of this one.
pub queued-Rising :
    (acts : List Act) (lane : Lane)
    → AloneAll acts lane
    → IsSpan lane.last
    → Rising lane.last (queued acts lane)
unfolding queued
queued-Rising [] lane k h = tt
queued-Rising (a ∷ rest) lane k h =
    noted (act a lane) (act-Stepped a lane k.0 h) (queued-Rising rest (act a lane).0 k.1)
  where
    noted :
        (r : Lane × Option Pushed)
        → Stepped lane r
        → (IsSpan r.0.last → Rising r.0.last (queued rest r.0))
        → Rising lane.last (note r.1 (queued rest r.0))
    noted (after, none) s later =
        subst (λ (l : Option (ℕ × ℕ)). Rising l (queued rest after)) s
          (later (subst IsSpan (sym s) h))
    noted (after, some p) s later = (
      s.0,
      subst (λ (l : Option (ℕ × ℕ)). Rising l (queued rest after)) s.2
          (later (subst IsSpan (sym s.2) s.1)),
    )
