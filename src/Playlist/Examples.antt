-- ===== src/Playlist/Examples.antt =====
-- A playlist of two items.
use capture_room.Prelude.{◌≡◌, refl, true, false, none, some, String, [], ◌∷◌}
use capture_room.Playlist.{
  Playout, PlaylistItem, ClipRequest, goes_next, is_item, new, cue, finish_cue,
}
use capture_room.Playlist.Deck.{take, set_playlist}
use capture_room.Playlist.Standby.{Reaches, starts, edits, finishes, takes, Reaches-Standby}
use capture_room.Playlist.Refresh.{IsStandby}
use capture_room.Playlist.Loss.{take_loses}

abbrev clip_at : String → ClipRequest
clip_at path = record { name = path; path = path; end = goes_next; rest = 0 }

abbrev first : PlaylistItem
first = record { id = "1"; clip = clip_at "a.mov" }

abbrev second : PlaylistItem
second = record { id = "2"; clip = clip_at "b.mov" }

abbrev third : PlaylistItem
third = record { id = "3"; clip = clip_at "c.mov" }

-- The first item is on air, and the second one has been cued.
abbrev on_air : Playout
on_air =
    finish_cue none 2 second
      (take none none 1 first true (set_playlist (first ∷ second ∷ third ∷ []) false new)).0

on_air-Reaches : Reaches on_air
on_air-Reaches =
    finishes none 2 second
      (takes none none 1 first true refl (edits (first ∷ second ∷ third ∷ []) false starts))

on_air_next : on_air.next ≡ some (cue 2 second)
unfolding finish_cue take set_playlist new
on_air_next = refl

Reaches-Standby_example : IsStandby on_air
Reaches-Standby_example = Reaches-Standby on_air on_air-Reaches

take_loses_example :
    let r = take (some "not found") none 3 third true on_air in
    (r.1 ≡ false)
    × (r.0.next ≡ none)
    × (r.0.next_ready ≡ true)
    × (r.0.next_id ≡ on_air.next_id)
    × (r.0.current ≡ on_air.current)
    × (r.0.preloading ≡ on_air.preloading)
unfolding is_item
take_loses_example =
    take_loses "not found" none 3 third true (cue 2 second) on_air on_air-Reaches on_air_next refl
