-- ===== src/Replay/Clip/Cover.antt =====
-- What a clip that is made covers.
use capture_room.Prelude.{
  ℕ, suc, ◌+◌, ◌-◌, ◌≤◌, ◌<◌, ◌≡◌, refl, sym, true, Option, none, some, map, arith, leb, ltb,
  Bool-cases, inl, inr, sub?, get_elem?, length, min, max, take, drop, subst, ap, ◌⊎◌, false,
  ltb→lt, lt→ltb, leb→le,
}
use capture_room.Replay.{Index, Segment, ReplayCodec}
use capture_room.Replay.Clip.{
  Outcome, ReplaySpan, made, refused, clip, cut, cut_from, begin_at, stop_at, between, from_there,
  choose, locate, clip_in, joins, rewind, advance, position, clamp?, or_else,
}
use capture_room.Replay.Clip.Stretch.{
  Joined, position_first, rewind_stops, advance_stops, position_lem, rewind_lem, advance_lem,
  find_within_lem, get_elem?_lt,
}

-- The first segment that ends after `from` is `asked`, the one at `at`, and the segments from `lo` to `hi` are all those that are
-- joined to it without a gap.
pub record Stretch (i : Index) (from lo hi : ℕ) (oldest newest : Segment) : Type 0 where
  pub at : ℕ
  pub asked : Segment
  pub asked_at : get_elem? i.segments at ≡ some asked
  pub after_from : from < asked.end
  pub until_from : (j : ℕ) (s : Segment) → j < at → get_elem? i.segments j ≡ some s → s.end ≤ from
  pub lo_at : lo ≤ at
  pub at_hi : at ≤ hi
  pub oldest_at : get_elem? i.segments lo ≡ some oldest
  pub newest_at : get_elem? i.segments hi ≡ some newest
  pub in_range : hi < length i.segments
  pub gapless : Joined i.segments lo hi
  pub opens : (k : ℕ) → suc k ≡ lo → joins i.segments k ≡ false
  pub closes : joins i.segments hi ≡ false

-- The span's files are those of the segments `begin` to `stop`, in the stretch around the first segment that ends after `from`.
-- The first holds the frame at `from`, the last is the first to reach `to`, and these are the times asked
-- for, kept within the stretch.
pub record Covers (i : Index) (from : ℕ) (to : Option ℕ) (span : ReplaySpan) : Type 0 where
  pub lo : ℕ
  pub begin : ℕ
  pub stop : ℕ
  pub hi : ℕ
  pub oldest : Segment
  pub first : Segment
  pub last : Segment
  pub newest : Segment
  pub stretch : Stretch i from lo hi oldest newest
  pub first_at : get_elem? i.segments begin ≡ some first
  pub last_at : get_elem? i.segments stop ≡ some last
  pub lo_begin : lo ≤ begin
  pub begin_stop : begin ≤ stop
  pub stop_hi : stop ≤ hi
  pub files :
      span.files ≡ map (λ (s : Segment). s.path) (take (suc stop - begin) (drop begin i.segments))
  pub base : span.base ≡ first.start
  pub from_asked : span.base + span.from ≡ min (max from oldest.start) newest.end
  pub to_asked :
      span.base + span.to ≡ min (max (or_else to newest.end) (span.base + span.from)) newest.end
  pub forward : span.from < span.to
  pub starts_in : span.base + span.from < first.end
  pub ends_in : span.base + span.to ≤ last.end
  pub ends_first :
      (j : ℕ) (s : Segment)
      → begin ≤ j
      → j < stop
      → get_elem? i.segments j ≡ some s
      → s.end < span.base + span.to

abbrev pub Covering : Index → ℕ → Option ℕ → Option Outcome → Type 0
Covering i from to none = Unit {0}
Covering i from to (some (refused why)) = Unit {0}
Covering i from to (some (made span j)) = Covers i from to span

sub?_lem : (a b c : ℕ) → sub? a b ≡ some c → b + c ≡ a
unfolding sub?
sub?_lem a b c e = ground arith

clamp?_lem : (x lo hi y : ℕ) → clamp? x lo hi ≡ some y → (y ≡ min (max x lo) hi) × (lo ≤ hi)
clamp?_lem x lo hi y e = ground arith

lo_hi : {i : Index} {from lo hi : ℕ} {a b : Segment} → Stretch i from lo hi a b → lo ≤ hi
lo_hi st = omega (arith, st.lo_at, st.at_hi)

module _ (i : Index) (codec : ReplayCodec) (asked : ℕ) (asked_to : Option ℕ) where
  cut-Covering :
      (lo hi begin stop from to : ℕ) (a b first last : Segment)
      → Stretch i asked lo hi a b
      → get_elem? i.segments begin ≡ some first
      → get_elem? i.segments stop ≡ some last
      → (lo ≤ begin) × (begin ≤ stop) × (stop ≤ hi)
      → from ≡ min (max asked a.start) b.end
      → to ≡ min (max (or_else asked_to b.end) from) b.end
      → from < to
      → from < first.end
      → to ≤ last.end
      → ((j : ℕ) (s : Segment)
          → begin ≤ j
          → j < stop
          → get_elem? i.segments j ≡ some s
          → s.end < to)
      → Covering i asked asked_to (cut i codec from to begin stop (get_elem? i.segments begin))
  cut-Covering lo hi begin stop from to a b first last st gf gl order fe te lt start_in end_in
        short =
      rw gf (go (sub? from first.start) refl (sub? to first.start) refl)
    where
      go :
          (f : Option ℕ)
          → sub? from first.start ≡ f
          → (t : Option ℕ) → sub? to first.start ≡ t
          → Covering i asked asked_to (cut_from i codec begin stop first f t)
      go none fe' t te' = tt
      go (some f) fe' none te' = tt
      go (some f) fe' (some t) te' =
          let sum_f = sub?_lem from first.start f fe' in
          let sum_t = sub?_lem to first.start t te' in
          record {
            lo = lo;
            begin = begin;
            stop = stop;
            hi = hi;
            oldest = a;
            first = first;
            last = last;
            newest = b;
            stretch = st;
            first_at = gf;
            last_at = gl;
            lo_begin = order.0;
            begin_stop = order.1;
            stop_hi = order.2;
            files = refl;
            base = refl;
            from_asked = omega arith;
            to_asked = rw (sum_f, sum_t) te;
            forward = omega arith;
            starts_in = omega arith;
            ends_in = omega arith;
            ends_first = λ j s h k g. omega (arith, sum_t, short j s h k g);
          }

  -- From a file that holds `from`, the search for the one that reaches `to`.
  stop-Covering :
      (lo hi begin from to : ℕ) (a b first : Segment)
      → Stretch i asked lo hi a b
      → get_elem? i.segments begin ≡ some first
      → lo ≤ begin
      → begin ≤ hi
      → from ≡ min (max asked a.start) b.end
      → to ≡ min (max (or_else asked_to b.end) from) b.end
      → from < to
      → from < first.end
      → Covering i asked asked_to
          (cut i codec from to begin (stop_at i.segments begin hi to) (get_elem? i.segments begin))
  stop-Covering lo hi begin from to a b first st gf l h fe te lt start_in =
      let reaches : leb to b.end ≡ true = ground arith in
      let m =
        find_within_lem (suc hi - begin) begin hi (λ s. leb to s.end) i.segments b h (omega arith)
          st.in_range st.newest_at reaches in
      let e : stop_at i.segments begin hi to ≡ m.at = ap (λ r. or_else r hi) m.found in
      let ends_in : to ≤ m.segment.end = leb→le to m.segment.end m.passes in
      subst
        (λ stop.
          Covering i asked asked_to (cut i codec from to begin stop (get_elem? i.segments begin)))
        (sym e)
        (cut-Covering lo hi begin m.at from to a b first m.segment st gf m.there
          (l, m.from_i, omega (arith, m.in_range)) fe te lt start_in ends_in
          λ j s h k g. unreached s (m.first j s h k g))
    where
      unreached : (s : Segment) → leb to s.end ≡ false → s.end < to
      unreached s e = ground (arith, e)

  begin-Covering :
      (lo hi from to : ℕ) (a b : Segment)
      → Stretch i asked lo hi a b
      → from ≡ min (max asked a.start) b.end
      → to ≡ min (max (or_else asked_to b.end) from) b.end
      → from < to
      → Covering i asked asked_to (
          let begin = begin_at i.segments lo hi from in
          cut i codec from to begin (stop_at i.segments begin hi to) (get_elem? i.segments begin))
  begin-Covering lo hi from to a b st fe te lt =
      let inside : ltb from b.end ≡ true = lt→ltb from b.end (omega arith) in
      let m =
        find_within_lem (suc hi - lo) lo hi (λ s. ltb from s.end) i.segments b (lo_hi st)
          (omega (arith, lo_hi st)) st.in_range st.newest_at inside in
      let e : begin_at i.segments lo hi from ≡ m.at = ap (λ r. or_else r lo) m.found in
      let starts_in : from < m.segment.end = ltb→lt from m.segment.end m.passes in
      subst
        (λ begin.
          Covering i asked asked_to (
            cut i codec from to begin (stop_at i.segments begin hi to)
              (get_elem? i.segments begin)))
        (sym e)
        (stop-Covering lo hi m.at from to a b m.segment st m.there m.from_i
          (omega (arith, m.in_range, lo_hi st)) fe te lt starts_in)

  between-Covering :
      (lo hi from : ℕ) (to : Option ℕ) (a b : Segment)
      → Stretch i asked lo hi a b
      → from ≡ min (max asked a.start) b.end
      → ((t : ℕ) → to ≡ some t → t ≡ min (max (or_else asked_to b.end) from) b.end)
      → Covering i asked asked_to (between i codec lo hi from to)
  between-Covering lo hi from none a b st fe te = tt
  between-Covering lo hi from (some to) a b st fe te = elim (Bool-cases (leb to from)) [
    | inl e ↦ rw e tt
    | inr e ↦ rw e (begin-Covering lo hi from to a b st fe (te to refl) (ground arith))
  ]

  from_there-Covering :
      (lo hi : ℕ) (from : Option ℕ) (a b : Segment)
      → Stretch i asked lo hi a b
      → ((f : ℕ) → from ≡ some f → f ≡ min (max asked a.start) b.end)
      → Covering i asked asked_to (from_there i codec lo hi b.end asked_to from)
  from_there-Covering lo hi none a b st fe = tt
  from_there-Covering lo hi (some from) a b st fe =
      between-Covering lo hi from (clamp? (or_else asked_to b.end) from b.end) a b st (fe from refl)
        λ t e. (clamp?_lem (or_else asked_to b.end) from b.end t e).0

  -- The segment asked for, and the stretch around it.
  around :
      (at : ℕ) (a b : Segment)
      → position (λ s. ltb asked s.end) i.segments ≡ some at
      → get_elem? i.segments (rewind i.segments at) ≡ some a
      → get_elem? i.segments (advance (length i.segments) i.segments (rewind i.segments at))
        ≡ some b
      → Stretch i asked
          (rewind i.segments at)
          (advance (length i.segments) i.segments (rewind i.segments at))
          a
          b
  around at a b e ga gb =
      let ss = i.segments in
      let lo = rewind ss at in
      let hi = advance (length ss) ss lo in
      let found = position_lem (λ s. ltb asked s.end) ss at e in
      let (it, none_before) = position_first (λ s. ltb asked s.end) ss at e in
      let (back, joined_back) = rewind_lem ss at in
      let (ahead, in_range, joined) = advance_lem (length ss) ss lo (omega arith) in
      let closed = advance_stops (length ss) ss lo (omega arith) (omega arith) in
      record {
        at = at;
        asked = it.0;
        asked_at = it.1;
        after_from = ltb→lt asked it.0.end it.2;
        until_from = λ j s h g. unasked s (none_before j s h g);
        lo_at = back;
        at_hi = within at lo hi joined_back closed ahead (omega arith);
        oldest_at = ga;
        newest_at = gb;
        in_range = in_range;
        gapless = joined;
        opens = λ k q. rewind_stops ss at k q;
        closes = closed;
      }
    where
      unasked : (s : Segment) → ltb asked s.end ≡ false → s.end ≤ asked
      unasked s e = ground (arith, e)

      within :
          (at lo hi : ℕ)
          → Joined i.segments lo at
          → joins i.segments hi ≡ false
          → lo ≤ hi
          → (hi < at) ⊎ (at ≤ hi)
          → at ≤ hi
      within at lo hi j c l (inr h) = h
      within at lo hi j c l (inl h) = let k = j hi l h in absurd (cc)

  locate-Covering :
      (at : Option ℕ)
      → position (λ s. ltb asked s.end) i.segments ≡ at
      → Covering i asked asked_to (locate i codec asked asked_to at)
  locate-Covering none h = tt
  locate-Covering (some at) h =
      let ss = i.segments in
      let lo = rewind ss at in
      let hi = advance (length ss) ss lo in
      let (back, before) = rewind_lem ss at in
      let found = position_lem (λ s. ltb asked s.end) ss at h in
      let (ahead, in_range, joined) = advance_lem (length ss) ss lo (omega arith) in
      go lo hi (get_elem?_lt ss lo (omega arith)) (get_elem?_lt ss hi in_range)
        λ a b ga gb. around at a b h ga gb
    where
      go :
          (lo hi : ℕ)
          → (a : Segment) × (get_elem? i.segments lo ≡ some a)
          → (b : Segment) × (get_elem? i.segments hi ≡ some b)
          → ((a b : Segment)
              → get_elem? i.segments lo ≡ some a
              → get_elem? i.segments hi ≡ some b
              → Stretch i asked lo hi a b)
          → Covering i asked asked_to (
              choose i codec lo hi asked asked_to
                (get_elem? i.segments lo)
                (get_elem? i.segments hi))
      go lo hi (a, ga) (b, gb) st =
          rw (ga, gb)
            (from_there-Covering lo hi (clamp? asked a.start b.end) a b (st a b ga gb)
              λ f e. (clamp?_lem asked a.start b.end f e).0)

clip_in-Covering :
    (codec : Option ReplayCodec) (i : Index) (from : ℕ) (to : Option ℕ)
    → Covering i from to (clip_in codec i from to)
clip_in-Covering none i from to = tt
clip_in-Covering (some codec) i from to =
    locate-Covering i codec from to (position (λ s. ltb from s.end) i.segments) refl

-- A clip that is made holds the files of consecutive segments, within the stretch without a gap around the first segment
-- that ends after the start asked for, a stretch that no segment joins at either end. Its times
-- are the ones asked for, kept within the stretch (the end of the stretch if no end was asked for);
-- the first file holds the frame at its start, and the last one is the first of them to reach its end.
pub clip-Covers :
    (i j : Index) (from : ℕ) (to : Option ℕ) (span : ReplaySpan)
    → clip i from to ≡ some (made span j)
    → Covers i from to span
unfolding clip
clip-Covers i j from to span e = subst (Covering i from to) e (clip_in-Covering i.codec i from to)
