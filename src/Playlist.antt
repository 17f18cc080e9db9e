-- ===== src/Playlist.antt =====
-- node/src/sources/channel/playout.rs: a channel's playlist, the clip on air and the one cued to follow
-- it. Each call is one hold of the deck's lock; players and lanes are left out, what they answer is an
-- argument. A task that cues a clip in the background ends with `finish_cue`.
pub mod Deck
pub mod Refresh
pub mod Standby
pub mod Loss
mod Examples
use capture_room.Prelude.{
  ℕ, ◌+◌, ◌≡◌, Bool, true, false, not, ◌&&◌, ◌||◌, Option, none, some, List, [], ◌∷◌, String,
  str_eq, ◌==◌, if◌then◌else◌, get_elem?, head?, find, ltb,
}

pub data ClipEnd : Type 0 where
  hold black loops goes_next : ClipEnd

pub data TransportState : Type 0 where
  idle cued playing paused ended : TransportState

-- The fields that nothing here reads are one value.
pub record ClipRequest : Type 0 where
  pub name : String
  pub path : String
  pub end : ClipEnd
  pub rest : ℕ

pub record PlaylistItem : Type 0 where
  pub id : String
  pub clip : ClipRequest

pub record Clip : Type 0 where
  pub serial : ℕ
  pub request : ClipRequest
  pub item : Option String

pub record Playout : Type 0 where
  pub items : List PlaylistItem
  pub loop_playlist : Bool
  pub rev : ℕ
  pub loaded : Bool
  pub current : Option Clip
  pub next : Option Clip
  pub preloading : Option PlaylistItem
  pub position : Option ℕ
  pub state : TransportState
  pub item_id : Option String
  pub next_id : Option String
  pub next_ready : Bool
  pub error : Option String

unfoldable pub new : Playout
new = record {
  items = [];
  loop_playlist = false;
  rev = 0;
  loaded = false;
  current = none;
  next = none;
  preloading = none;
  position = none;
  state = idle;
  item_id = none;
  next_id = none;
  next_ready = false;
  error = none;
}

abbrev pub same_end : ClipEnd → ClipEnd → Bool
same_end hold hold = true
same_end black black = true
same_end loops loops = true
same_end goes_next goes_next = true
same_end _ _ = false

abbrev pub same_request : ClipRequest → ClipRequest → Bool
same_request a b =
    str_eq a.name b.name && str_eq a.path b.path && same_end a.end b.end && a.rest == b.rest

unfoldable pub same_item : PlaylistItem → PlaylistItem → Bool
same_item a b = str_eq a.id b.id && same_request a.clip b.clip

abbrev pub has_id : Option String → String → Bool
has_id none id = false
has_id (some own) id = str_eq own id

-- `Clip::is`.
unfoldable pub is_item : Clip → PlaylistItem → Bool
is_item c i = has_id c.item i.id && same_request c.request i.clip

abbrev pub index_of : String → List PlaylistItem → Option ℕ
index_of id [] = none
index_of id (i ∷ is) =
    let rest = index_of id is in
    if str_eq i.id id then some 0 else elim rest [ none ↦ none | some n ↦ some (n + 1) ]

abbrev pub or_first : Bool → List PlaylistItem → Option PlaylistItem → Option PlaylistItem
or_first b items (some i) = some i
or_first true items none = head? items
or_first false items none = none

abbrev pub after_last : Option ℕ → ℕ
after_last none = 0
after_last (some i) = i + 1

-- The item was removed: the one that took its place.
abbrev pub in_its_place : List PlaylistItem → Bool → Option ℕ → Option PlaylistItem × Option ℕ
in_its_place items loop_playlist none = (none, none)
in_its_place items loop_playlist (some i) =
    (or_first loop_playlist items (get_elem? items i), some i)

-- What follows the item with this index, and the position noted.
abbrev pub following_at :
    Option ℕ → List PlaylistItem → Bool → Option ℕ → Option PlaylistItem × Option ℕ
following_at (some i) items loop_playlist position =
    (or_first loop_playlist items (get_elem? items (i + 1)), some i)
following_at none items loop_playlist position = in_its_place items loop_playlist position

abbrev pub following_item :
    Option String → List PlaylistItem → Bool → Option ℕ → Option PlaylistItem × Option ℕ
following_item none items loop_playlist position = (none, position)
following_item (some id) items loop_playlist position =
    following_at (index_of id items) items loop_playlist position

abbrev pub following_clip :
    Option Clip → List PlaylistItem → Bool → Option ℕ → Option PlaylistItem × Option ℕ
following_clip none items loop_playlist position =
    (or_first true items (get_elem? items (after_last position)), position)
following_clip (some c) items loop_playlist position =
    following_item c.item items loop_playlist position

unfoldable pub following : Playout → Option PlaylistItem × Option ℕ
following s = following_clip s.current s.items s.loop_playlist s.position

abbrev pub keep_next : Option PlaylistItem → Option Clip → Option Clip
keep_next want none = none
keep_next none (some c) = none
keep_next (some w) (some c) = if is_item c w then some c else none

abbrev pub is_some : {A : Type 0} → Option A → Bool
is_some none = false
is_some (some a) = true

abbrev pub id_of : Option PlaylistItem → Option String
id_of none = none
id_of (some i) = some i.id

abbrev pub is_preloading : Option PlaylistItem → PlaylistItem → Bool
is_preloading none w = false
is_preloading (some p) w = same_item p w

abbrev pub preload : Option PlaylistItem → Playout → Playout
preload none s = s
preload (some w) s =
    if is_some s.next || is_preloading s.preloading w then s else record s { preloading = some w }

abbrev pub show_next : Option PlaylistItem → Option Clip → Playout → Playout
show_next want next s = record s { next = next; next_id = id_of want; next_ready = is_some next }

unfoldable pub refresh_next : Playout → Playout
unfolding following is_item same_item
refresh_next s =
    let want = following s in
    preload want.0 (show_next want.0 (keep_next want.0 s.next) (record s { position = want.1 }))

abbrev pub cue : ℕ → PlaylistItem → Clip
cue serial item = record { serial = serial; request = item.clip; item = some item.id }

abbrev pub settle_cued : Option PlaylistItem → Option ℕ → ℕ → PlaylistItem → Playout → Playout
settle_cued none position serial want s = refresh_next (record s { position = position })
settle_cued (some w) position serial want s =
    if same_item w want
    then record s { position = position; next = some (cue serial want); next_ready = true }
    else refresh_next (record s { position = position })

abbrev pub settle_cue : Option String → ℕ → PlaylistItem → Playout → Playout
settle_cue (some failure) serial want s = record s { error = some failure }
settle_cue none serial want s = settle_cued (following s).0 (following s).1 serial want s

-- `want` was cued in the background, or could not be.
unfoldable pub finish_cue : Option String → ℕ → PlaylistItem → Playout → Playout
unfolding following refresh_next same_item
finish_cue failure serial want s =
    if is_preloading s.preloading want
    then settle_cue failure serial want (record s { preloading = none })
    else s
