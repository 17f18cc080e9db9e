-- ===== src/Playlist/Loss.antt =====
-- A command that takes an item which can not be cued.
use capture_room.Prelude.{
  ◌≡◌, refl, ℕ, Bool, true, false, Option, none, some, String, ◌∙◌, ap, sym, subst,
}
use capture_room.Playlist.{Playout, PlaylistItem, Clip, is_item, is_some}
use capture_room.Playlist.Deck.{take, standby_for}
use capture_room.Playlist.Standby.{Reaches, Reaches-Standby}

standby_none :
    (item : PlaylistItem) (o : Option Clip) (c : Clip)
    → o ≡ some c
    → is_item c item ≡ false
    → standby_for item o ≡ none
standby_none item none c e d = refl
standby_none item (some b) c e d =
    subst (λ (o : Option Clip). standby_for item o ≡ none) (sym e) (simp d refl)

-- If a clip other than `item` is in standby and `item` can not be cued, taking `item` fails, and loses
-- the clip in standby, while the status goes on saying that the next item is ready; what is
-- on air and what is being cued stay as they were. This holds after any commands none of which
-- lost a clip in standby so before.
pub take_loses :
    (failure : String) (aired : Option String) (serial : ℕ) (item : PlaylistItem) (play : Bool)
    (c : Clip) (s : Playout)
    → Reaches s
    → s.next ≡ some c
    → is_item c item ≡ false
    → let r = take (some failure) aired serial item play s in
      (r.1 ≡ false)
      × (r.0.next ≡ none)
      × (r.0.next_ready ≡ true)
      × (r.0.next_id ≡ s.next_id)
      × (r.0.current ≡ s.current)
      × (r.0.preloading ≡ s.preloading)
unfolding take
take_loses failure aired serial item play c s h n d =
    rw (standby_none item s.next c n d)
      (refl, refl, (Reaches-Standby s h).ready ∙ ap is_some n, refl, refl, refl)
