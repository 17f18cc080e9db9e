-- ===== src/Playlist/Deck.antt =====
-- The commands that change what is on air.
use capture_room.Prelude.{
  str_eq, ℕ, ◌+◌, Bool, true, false, not, ◌&&◌, ◌||◌, Option, none, some, List, String, ◌==◌,
  if◌then◌else◌, find,
}
use capture_room.Playlist.{
  ClipRequest, Playout, PlaylistItem, Clip, loops, idle, cued, playing, TransportState, same_end,
  same_request, has_id, is_item, refresh_next, following, cue,
}

-- A clip takes its item's end, if the item is otherwise as it was and neither end loops.
abbrev pub edit_clip : Option PlaylistItem → Clip → Clip
edit_clip none c = c
edit_clip (some i) c =
    if same_request (record i.clip { end = c.request.end }) c.request
      && not (same_end c.request.end loops || same_end i.clip.end loops)
    then record c { request = record c.request { end = i.clip.end } }
    else c

abbrev pub edit_current : List PlaylistItem → Option Clip → Option Clip
edit_current items none = none
edit_current items (some c) = some (edit_clip (find (λ i. has_id c.item i.id) items) c)

unfoldable pub set_playlist : List PlaylistItem → Bool → Playout → Playout
set_playlist items loop_playlist s = refresh_next (record s {
  current = edit_current items s.current;
  items = items;
  loop_playlist = loop_playlist;
  rev = s.rev + 1;
  loaded = true;
})

-- `set`, with the clip on air.
abbrev pub show : TransportState → Option Clip → Option String → Option String → Playout → Playout
show state current item_id error s = record s {
  state = state;
  current = current;
  item_id = item_id;
  error = error;
}

-- The clip is put on air, or why it could not be.
abbrev pub put_on_air : Option String → Bool → Clip → Playout → Playout × Bool
put_on_air none play clip s =
    (refresh_next (show (if play then playing else cued) (some clip) clip.item none s), true)
put_on_air (some failure) play clip s = (refresh_next (show idle none none (some failure) s), false)

abbrev pub standby_for : PlaylistItem → Option Clip → Option Clip
standby_for item none = none
standby_for item (some c) = if is_item c item then some c else none

-- `failure` is why `item` could not be cued, were it not in standby.
abbrev pub take_clip :
    Option Clip → Option String → Option String → ℕ → PlaylistItem → Bool → Playout → Playout × Bool
take_clip (some clip) failure aired serial item play s = put_on_air aired play clip s
take_clip none none aired serial item play s = put_on_air aired play (cue serial item) s
take_clip none (some failure) aired serial item play s = (record s { error = some failure }, false)

unfoldable pub take :
    Option String → Option String → ℕ → PlaylistItem → Bool → Playout → Playout × Bool
unfolding refresh_next is_item
take failure aired serial item play s =
    take_clip (standby_for item s.next) failure aired serial item play (record s { next = none })

-- `next`: the item that follows is taken and played.
abbrev pub take_following :
    Option PlaylistItem → Option String → Option String → ℕ → Playout → Playout × Bool
take_following none failure aired serial s = (s, false)
take_following (some item) failure aired serial s = take failure aired serial item true s

unfoldable pub next : Option String → Option String → ℕ → Playout → Playout × Bool
unfolding following take
next failure aired serial s =
    take_following (following s).0 failure aired serial (record s { position = (following s).1 })

abbrev pub same_item_id : Option String → Option String → Bool
same_item_id none none = true
same_item_id (some a) (some b) = str_eq a b
same_item_id _ _ = false

abbrev pub standby_with : ClipRequest → Option String → Option Clip → Option Clip
standby_with request item none = none
standby_with request item (some c) =
    if same_item_id c.item item && same_request c.request request then some c else none

abbrev pub cue_loaded : Option String → ℕ → ClipRequest → Option String → Playout → Playout × Bool
cue_loaded none serial request item s = (
  refresh_next
      (show cued (some (record { serial = serial; request = request; item = item })) item none s),
  true,
)
cue_loaded (some failure) serial request item s =
    (refresh_next (show idle none none (some failure) s), false)

abbrev pub load_standby :
    Option Clip
    → Option String
    → Option String
    → ℕ
    → ClipRequest
    → Option String
    → Playout
    → Playout × Bool
load_standby (some clip) failure aired serial request item s = put_on_air aired false clip s
load_standby none failure aired serial request item s = cue_loaded failure serial request item s

-- The clip on air goes first.
unfoldable pub load_clip :
    Option String → Option String → ℕ → ClipRequest → Option String → Playout → Playout × Bool
unfolding refresh_next
load_clip failure aired serial request item s =
    load_standby (standby_with request item s.next) failure aired serial request item
      (record (show idle none none none s) { next = none })

unfoldable pub stop : Playout → Playout
stop s = refresh_next (show idle none none none s)

abbrev pub is_serial : ℕ → Option Clip → Bool
is_serial serial none = false
is_serial serial (some c) = c.serial == serial

-- A clip's player failed.
unfoldable pub failed : ℕ → String → Playout → Playout
unfolding refresh_next
failed serial error s =
    if is_serial serial s.next
    then record s { next = none; next_ready = false; error = some error }
    else if is_serial serial s.current
    then refresh_next (show idle none none (some error) s)
    else s
