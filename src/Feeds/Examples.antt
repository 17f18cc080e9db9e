-- ===== src/Feeds/Examples.antt =====
-- A camera whose monitor restarts while its replay starts.
use capture_room.Prelude.{ℕ, ◌≡◌, refl, false, none, some, [], ◌∷◌, get}
use capture_room.Feeds.{
  Monitor, Feeds, Started, leg_up, up, apply, apply_one, apply_monitor, apply_outputs, apply_replay,
  disconnect, is_current,
}
use capture_room.Feeds.Replays.{set_replay, sync_replays, sync_replay}
use capture_room.Feeds.Fed.{FeedsOutputs, FeedsReplay}
use capture_room.Feeds.Runs.{
  Reaches, empty, lists, applies, disconnects, syncs, sets, Reaches-feeds,
}
use capture_room.Feeds.Served.{Serves, sync_replays-Serves}

abbrev monitor : ℕ → Monitor
monitor n = record { serial = n; clock = 1 }

-- The camera's nth monitor, up.
abbrev starts_monitor : ℕ → Started
starts_monitor n = record {
  id = "cam";
  monitor = some (7, up (monitor n));
  outputs = none;
  replay = none;
}

-- The replay's leg, started on the camera's first monitor.
abbrev starts_leg : Started
starts_leg = record {
  id = "cam";
  monitor = none;
  outputs = none;
  replay = some (record {
    index = 3;
    codec = 1;
    leg = some (leg_up (record { serial = 9; error = none }), 1);
  });
}

abbrev listed : Feeds
listed = record {
  sources = record { serial = 7; id = "cam" } ∷ [];
  monitors = [];
  start_errors = [];
  outputs = [];
  replays = [];
}

abbrev connected : Feeds
connected = (apply (starts_monitor 1 ∷ []) listed).0

abbrev buffered : Feeds
buffered =
    (sync_replays [] (set_replay "cam" (some (record { codec = 1; minutes = 5 })) 3 connected).0).0

abbrev restarted : Feeds
restarted = (apply (starts_monitor 2 ∷ []) (disconnect "cam" buffered)).0

abbrev late : Feeds
late = (apply (starts_leg ∷ []) restarted).0

late-Reaches : Reaches late
late-Reaches = applies (starts_leg ∷ []) (
    applies (starts_monitor 2 ∷ []) (
      disconnects "cam" (
        syncs [] (
          sets "cam" (some (record { codec = 1; minutes = 5 })) 3 (
            applies (starts_monitor 1 ∷ [])
              (lists (record { serial = 7; id = "cam" } ∷ []) empty))))))

Reaches-feeds_example :
    FeedsOutputs (get "cam" late.monitors) (get "cam" late.outputs)
    × FeedsReplay (get "cam" late.monitors) (get "cam" late.replays)
Reaches-feeds_example = Reaches-feeds late late-Reaches "cam"

sync_replays-Serves_example :
    Serves [] late.monitors late.replays (sync_replays [] late).0.replays (sync_replays [] late).1
sync_replays-Serves_example = sync_replays-Serves [] late

-- The leg of the first monitor is turned away, and the buffer waits for another.
turned_away_example :
    get "cam" late.replays
    ≡ some
        (record { leg = none; codec = 1; minutes = 5; index = 3; error = none; starting = false })
unfolding apply_one apply_monitor apply_outputs apply_replay disconnect set_replay sync_replays
    sync_replay is_current
turned_away_example = refl
