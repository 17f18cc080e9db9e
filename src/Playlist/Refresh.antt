-- ===== src/Playlist/Refresh.antt =====
-- What `refresh_next` and the end of a background cue leave in standby.
use capture_room.Prelude.{
  ℕ, ◌≡◌, refl, sym, ap, ◌∙◌, subst, inl, inr, Bool, true, ◌&&◌, ◌||◌, Option, none, some, List,
  String, str_eq, if◌then◌else◌, Bool-cases, and_true, str_true_sym, ◌==◌, ==_iff,
}
use capture_room.Playlist.{
  Playout, PlaylistItem, Clip, following, following_clip, following_item, following_at, index_of,
  keep_next, is_some, id_of, is_preloading, preload, show_next, refresh_next, is_item, same_item,
  cue, settle_cued, same_request, same_end, ClipEnd, hold, black, loops, goes_next,
}

-- The clip in standby is the item that follows.
abbrev pub Cued : Option Clip → Option PlaylistItem → Type 0
Cued none want = Unit {0}
Cued (some c) none = ⊥
Cued (some c) (some w) = is_item c w ≡ true

pub record IsStandby (s : Playout) : Type 0 where
  pub ready : s.next_ready ≡ is_some s.next
  pub shown : s.next_id ≡ id_of (following s).0
  pub stands : Cued s.next (following s).0

-- Noting the position does not change what follows.
settled_at :
    (o : Option ℕ) (items : List PlaylistItem) (b : Bool) (p : Option ℕ)
    → (following_at o items b (following_at o items b p).1).0 ≡ (following_at o items b p).0
settled_at none items b none = refl
settled_at none items b (some i) = refl
settled_at (some i) items b p = refl

settled_item :
    (id : Option String) (items : List PlaylistItem) (b : Bool) (p : Option ℕ)
    → (following_item id items b (following_item id items b p).1).0
      ≡ (following_item id items b p).0
settled_item none items b p = refl
settled_item (some id) items b p = settled_at (index_of id items) items b p

settled_clip :
    (c : Option Clip) (items : List PlaylistItem) (b : Bool) (p : Option ℕ)
    → (following_clip c items b (following_clip c items b p).1).0 ≡ (following_clip c items b p).0
settled_clip none items b p = refl
settled_clip (some c) items b p = settled_item c.item items b p

pub following-settled :
    (s : Playout) → (following (record s { position = (following s).1 })).0 ≡ (following s).0
unfolding following
following-settled s = settled_clip s.current s.items s.loop_playlist s.position

keep_next-Cued : (want : Option PlaylistItem) (next : Option Clip) → Cued (keep_next want next) want
keep_next-Cued want none = tt
keep_next-Cued none (some c) = tt
keep_next-Cued (some w) (some c) = elim (Bool-cases (is_item c w)) [
  | inl e ↦ subst (λ (b : Bool). Cued (if b then some c else none) (some w)) (sym e) e
  | inr e ↦ simp e tt
]

preload-IsStandby :
    (want : Option PlaylistItem) (s : Playout) → IsStandby s → IsStandby (preload want s)
unfolding following
preload-IsStandby none s h = h
preload-IsStandby (some w) s h =
    elim (Bool-cases (is_some s.next || is_preloading s.preloading w)) [
      | inl e ↦ rw e h
      | inr e ↦ rw e (record { ready = h.ready; shown = h.shown; stands = h.stands })
    ]

pub refresh_next-IsStandby : (s : Playout) → IsStandby (refresh_next s)
unfolding refresh_next following
refresh_next-IsStandby s =
    preload-IsStandby (following s).0
      (show_next (following s).0 (keep_next (following s).0 s.next)
        (record s { position = (following s).1 }))
      (record {
        ready = refl;
        shown = ap id_of (sym (following-settled s));
        stands =
            subst (Cued (keep_next (following s).0 s.next)) (sym (following-settled s))
              (keep_next-Cued (following s).0 s.next);
      })

same_end_sym : (a b : ClipEnd) → same_end a b ≡ true → same_end b a ≡ true
same_end_sym hold hold e = refl
same_end_sym black black e = refl
same_end_sym loops loops e = refl
same_end_sym goes_next goes_next e = refl
same_end_sym hold black e = absurd (cc)
same_end_sym hold loops e = absurd (cc)
same_end_sym hold goes_next e = absurd (cc)
same_end_sym black hold e = absurd (cc)
same_end_sym black loops e = absurd (cc)
same_end_sym black goes_next e = absurd (cc)
same_end_sym loops hold e = absurd (cc)
same_end_sym loops black e = absurd (cc)
same_end_sym loops goes_next e = absurd (cc)
same_end_sym goes_next hold e = absurd (cc)
same_end_sym goes_next black e = absurd (cc)
same_end_sym goes_next loops e = absurd (cc)

cue_is : (serial : ℕ) (w v : PlaylistItem) → same_item w v ≡ true → is_item (cue serial v) w ≡ true
unfolding same_item is_item
cue_is serial w v e =
    let a = and_true (str_eq w.id v.id) (same_request w.clip v.clip) e in
    let b =
      and_true
        (str_eq w.clip.name v.clip.name
          && str_eq w.clip.path v.clip.path
          && same_end w.clip.end v.clip.end)
        (w.clip.rest == v.clip.rest) a.1 in
    let c =
      and_true (str_eq w.clip.name v.clip.name && str_eq w.clip.path v.clip.path)
        (same_end w.clip.end v.clip.end) b.0 in
    let d = and_true (str_eq w.clip.name v.clip.name) (str_eq w.clip.path v.clip.path) c.0 in
    simp
      (
        str_true_sym w.id v.id a.0,
        str_true_sym w.clip.name v.clip.name d.0,
        str_true_sym w.clip.path v.clip.path d.1,
        same_end_sym w.clip.end v.clip.end c.1,
        (==_iff v.clip.rest w.clip.rest).1 (sym ((==_iff w.clip.rest v.clip.rest).0 b.1)),
      )
      refl

pub settle_cued-IsStandby :
    (want : Option PlaylistItem) (serial : ℕ) (v : PlaylistItem) (s : Playout)
    → (following s).0 ≡ want
    → s.next_id ≡ id_of want
    → IsStandby (settle_cued want (following s).1 serial v s)
unfolding following
settle_cued-IsStandby none serial v s f n = refresh_next-IsStandby _
settle_cued-IsStandby (some w) serial v s f n = elim (Bool-cases (same_item w v)) [
  | inl e ↦ rw e (record {
    ready = refl;
    shown = n ∙ ap id_of (sym (following-settled s ∙ f));
    stands =
        subst (Cued (some (cue serial v))) (sym (following-settled s ∙ f)) (cue_is serial w v e);
  })
  | inr e ↦ rw e (refresh_next-IsStandby (record s { position = (following s).1 }))
]
