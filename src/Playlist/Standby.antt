-- ===== src/Playlist/Standby.antt =====
-- What is in standby is what follows, and the status says so.
use capture_room.Prelude.{
  false, ◌≡◌, ℕ, refl, sym, ap, ◌∙◌, subst, inl, inr, Bool, true, Option, none, some, List, String,
  Bool-cases,
}
use capture_room.Playlist.{
  is_some, cued, ClipRequest, Playout, PlaylistItem, Clip, following, id_of, is_preloading,
  settle_cue, finish_cue, new, idle,
}
use capture_room.Playlist.Deck.{
  next, take_following, load_clip, load_standby, standby_with, set_playlist, take, take_clip,
  put_on_air, standby_for, stop, failed, is_serial, show,
}
use capture_room.Playlist.Refresh.{
  Cued, IsStandby, following-settled, refresh_next-IsStandby, settle_cued-IsStandby,
}

finish_cue-IsStandby :
    (failure : Option String) (serial : ℕ) (want : PlaylistItem) (s : Playout)
    → IsStandby s
    → IsStandby (finish_cue failure serial want s)
unfolding finish_cue following
finish_cue-IsStandby failure serial want s h = elim (Bool-cases (is_preloading s.preloading want)) [
  | inl e ↦ rw e (settled failure)
  | inr e ↦ rw e h
]
  where
    settled :
        (f : Option String) → IsStandby (settle_cue f serial want (record s { preloading = none }))
    settled none =
        settle_cued-IsStandby (following s).0 serial want (record s { preloading = none }) refl
          h.shown
    settled (some failure) = record { ready = h.ready; shown = h.shown; stands = h.stands }

put_on_air-IsStandby :
    (aired : Option String) (play : Bool) (clip : Clip) (s : Playout)
    → IsStandby (put_on_air aired play clip s).0
put_on_air-IsStandby none play clip s = refresh_next-IsStandby _
put_on_air-IsStandby (some failure) play clip s = refresh_next-IsStandby _

-- A command fails to cue the item it takes while a clip of another one is in standby.
abbrev pub loses : Option String → Option Clip → Option Clip → Bool
loses (some failure) none (some c) = true
loses (some failure) none none = false
loses (some failure) (some clip) o = false
loses none clip o = false

take-IsStandby :
    (failure aired : Option String) (serial : ℕ) (item : PlaylistItem) (play : Bool) (s : Playout)
    → loses failure (standby_for item s.next) s.next ≡ false
    → IsStandby s
    → IsStandby (take failure aired serial item play s).0
unfolding take following
take-IsStandby failure aired serial item play s k h = by_clip (standby_for item s.next) failure k
  where
    without :
        (o : Option Clip)
        → s.next ≡ o
        → (f : String) → loses (some f) none o ≡ false
        → s.next ≡ none
    without none e f k = e
    without (some c) e f k = absurd (cc)

    by_clip :
        (o : Option Clip) (f : Option String)
        → loses f o s.next ≡ false
        → IsStandby (take_clip o f aired serial item play (record s { next = none })).0
    by_clip none none k = put_on_air-IsStandby aired play _ _
    by_clip none (some f) k = record {
      ready = h.ready ∙ ap is_some (without s.next refl f k);
      shown = h.shown;
      stands = tt;
    }
    by_clip (some clip) f k = put_on_air-IsStandby aired play clip _

failed-IsStandby :
    (serial : ℕ) (error : String) (s : Playout) → IsStandby s → IsStandby (failed serial error s)
unfolding failed following
failed-IsStandby serial error s h = elim (Bool-cases (is_serial serial s.next)) [
  | inl e ↦ rw e (record { ready = refl; shown = h.shown; stands = tt })
  | inr e ↦ elim (Bool-cases (is_serial serial s.current)) [
    | inl k ↦ rw (e, k) (refresh_next-IsStandby (show idle none none (some error) s))
    | inr k ↦ rw (e, k) h
  ]
]

set_playlist-IsStandby :
    (items : List PlaylistItem) (b : Bool) (s : Playout) → IsStandby (set_playlist items b s)
unfolding set_playlist
set_playlist-IsStandby items b s = refresh_next-IsStandby _

stop-IsStandby : (s : Playout) → IsStandby (stop s)
unfolding stop
stop-IsStandby s = refresh_next-IsStandby _

-- `next` fails so.
abbrev pub loses_next : Option String → Option PlaylistItem → Option Clip → Bool
loses_next failure none o = false
loses_next failure (some item) o = loses failure (standby_for item o) o

next-IsStandby :
    (failure aired : Option String) (serial : ℕ) (s : Playout)
    → loses_next failure (following s).0 s.next ≡ false
    → IsStandby s
    → IsStandby (next failure aired serial s).0
unfolding next following
next-IsStandby failure aired serial s k h = by_item (following s).0 k
  where
    noted : Playout
    noted = record s { position = (following s).1 }

    still : IsStandby noted
    still = record {
      ready = h.ready;
      shown = h.shown ∙ ap id_of (sym (following-settled s));
      stands = subst (Cued s.next) (sym (following-settled s)) h.stands;
    }

    by_item :
        (o : Option PlaylistItem)
        → loses_next failure o s.next ≡ false
        → IsStandby (take_following o failure aired serial noted).0
    by_item none k = still
    by_item (some item) k = take-IsStandby failure aired serial item true noted k still

load_clip-IsStandby :
    (failure aired : Option String) (serial : ℕ) (request : ClipRequest) (item : Option String)
    (s : Playout)
    → IsStandby (load_clip failure aired serial request item s).0
unfolding load_clip
load_clip-IsStandby failure aired serial request item s =
    by_clip (standby_with request item s.next) failure
  where
    unloaded : Playout
    unloaded = record (show idle none none none s) { next = none }

    by_clip :
        (o : Option Clip) (f : Option String)
        → IsStandby (load_standby o f aired serial request item unloaded).0
    by_clip (some clip) f = put_on_air-IsStandby aired false clip unloaded
    by_clip none none = refresh_next-IsStandby (
        show cued (some (record { serial = serial; request = request; item = item })) item none
          unloaded)
    by_clip none (some failure) =
        refresh_next-IsStandby (show idle none none (some failure) unloaded)

-- A channel's playout after any commands and background cues, in which no command failed to cue the item it took while a clip of
-- another one was in standby.
pub data Reaches : Playout → Type 0 where
  starts : Reaches new
  edits :
      {s : Playout} (items : List PlaylistItem) (b : Bool)
      → Reaches s
      → Reaches (set_playlist items b s)
  finishes :
      {s : Playout} (failure : Option String) (serial : ℕ) (want : PlaylistItem)
      → Reaches s
      → Reaches (finish_cue failure serial want s)
  takes :
      {s : Playout} (failure aired : Option String) (serial : ℕ) (item : PlaylistItem) (play : Bool)
      → loses failure (standby_for item s.next) s.next ≡ false
      → Reaches s
      → Reaches (take failure aired serial item play s).0
  nexts :
      {s : Playout} (failure aired : Option String) (serial : ℕ)
      → loses_next failure (following s).0 s.next ≡ false
      → Reaches s
      → Reaches (next failure aired serial s).0
  loads :
      {s : Playout} (failure aired : Option String) (serial : ℕ) (request : ClipRequest)
      (item : Option String)
      → Reaches s
      → Reaches (load_clip failure aired serial request item s).0
  stops : {s : Playout} → Reaches s → Reaches (stop s)
  fails : {s : Playout} (serial : ℕ) (error : String) → Reaches s → Reaches (failed serial error s)

-- After any commands, background cues (successful or not) and failures of players, in which no
-- command failed to cue the playlist item it took while a clip of another item was in standby: a clip in standby is the playlist item that follows, the
-- status names that item as the next one, and says that it is ready exactly if it is in standby.
pub Reaches-Standby : (s : Playout) → Reaches s → IsStandby s
unfolding new following
Reaches-Standby s starts = record { ready = refl; shown = refl; stands = tt }
Reaches-Standby s (edits {s = t} items b h) = set_playlist-IsStandby items b t
Reaches-Standby s (finishes {s = t} failure serial want h) =
    finish_cue-IsStandby failure serial want t (Reaches-Standby t h)
Reaches-Standby s (takes {s = t} failure aired serial item play k h) =
    take-IsStandby failure aired serial item play t k (Reaches-Standby t h)
Reaches-Standby s (nexts {s = t} failure aired serial k h) =
    next-IsStandby failure aired serial t k (Reaches-Standby t h)
Reaches-Standby s (loads {s = t} failure aired serial request item h) =
    load_clip-IsStandby failure aired serial request item t
Reaches-Standby s (stops {s = t} h) = stop-IsStandby t
Reaches-Standby s (fails {s = t} serial error h) =
    failed-IsStandby serial error t (Reaches-Standby t h)
