-- ===== src/Lib.antt =====
-- Capture Room: recording, playback and instant replay for a multicam setup. Its node (node/src, Rust)
-- runs on every machine; one node at a time is also the controller of the others.
--
-- The parts modelled here, their files, and the code they stand for:
--
-- * Benchmark (node/src/benchmark): how many feeds a machine sustains. Search.antt is search.rs (`Search`:
--   counts that passed and failed, `next`, `passed`, `failed`, `cap`, `next_if_passed`), Memory.antt is
--   `MemoryBudget` of memory.rs, and Run.antt is the loop of `Run::search` in run.rs: an iteration takes
--   the answers that the machine gives it (`Round`), and `loop` runs as many iterations as it has rounds.
--   While memory has room (Run/Room.antt), (n + 1)(2n + 6) + 1 rounds are enough for a limit of n feeds: Run/Ending.antt
--   proves it by a measure that every iteration lowers. Search/ has the search's invariant and measure, Run/ the loop's
--   theorems, among them the run of it that never ends (Run/Spin.antt).
-- * Replay (node/src/pipeline/replay.rs): the index of an instant replay buffer. Replay.antt has `Index`
--   and its operations, a dropped `Hold` as `release`, and what `ReplayLeg::start` does to the index as `start`; an operation returns the files it removes.
--   Replay/Clip.antt is `clip`, each step of it a function: the segment to start at, the stretch without
--   a gap around it, the times, the files, the hold. Times are nanoseconds; `none` is a panic. `advance`
--   has the number of segments as its fuel, which is enough since every step goes to the next one.
-- * Clock (node/src/clock.rs): the clock that a node runs on, who claimed the node, and the switch to a
--   clock once it has synced. Each call is one hold of the lock; a thread in `await_sync` is an entry of
--   `waiting`, and one round of it is a step (Clock/Calls.antt has what calls do to the clock in use, Clock/Switch.antt the rest). Whether a clock can be made is an argument (`made`).
-- * Registry (node/src/controller/registry.rs): the controller's approved nodes, the keys it trusts
--   (`Pins` of node/src/tls.rs, as a list), and the nodes found on the network. Registry/Health.antt has
--   the health checks. Hash maps are association lists with one entry a key.
-- * Ltc (node/src/sources/ltc/decode.rs): the decoder of linear timecode, from samples to frames. Its
--   floats are a parameter (`Floats`). Ltc/Bits.antt lays out a frame's bits as the encoder of the tests
--   does.
-- * Playlist (node/src/sources/channel/playout.rs): a channel's playlist, what is on air and what is cued
--   to follow it. Playlist.antt has `following`, `refresh_next` and the end of its background task,
--   Playlist/Deck.antt `set_playlist`, `take`, `next`, `load_clip`, `stop` and `failed`. A call is one hold of the deck's lock;
--   why a clip could not be cued or put on air is an argument.
-- * Lanes (node/src/sources/channel/lanes.rs): the program side of a clip on air. Lanes.antt has the times
--   that `push`, `push_still` and `follow_on_base` stamp buffers with; `push` is `prepare`
--   and `commit`, one for each of its holds of the lock.
--
-- * Sources (node/src/sources/manager.rs, node/src/session.rs): recordings on a node's sources. Recordings.antt has
--   the two steps of a start, around the start of the legs off the lock; Markers.antt the marks on a session;
--   Ends.antt leg failures, stops and the loss of a monitor. Runs.antt has the steps of the manager with the starts in
--   flight, and Places.antt where a recording stands. What a leg reports is a value that a step changes;
--   the files that exist, the clocks' times and new identifiers are arguments.
--
-- * Auth (node/src/auth.rs): who gets in. Auth.antt has the access token, the pairing code and its tries, random
--   strings and the comparison in constant time; Requests.antt the gate on requests (`require`), what carries the token, `validate`,
--   `post_sign_in` and `post_pair`; Links.antt the sign-in links; Utf8.antt what these use of texts, as lists of
--   code points. SHA-256 is a parameter: a link is known by its hash. What the database stores and the
--   random bytes are arguments; `random_string` is `none` while these do not suffice.
--
-- * Scheduler (node/src/controller/scheduler.rs, node/src/db/mod.rs): recordings and playout started at set times.
--   Scheduler.antt has `Rule`, how it is parsed and its starts; Runs.antt the rows of runs (`schedule_run_insert` and its
--   kin) and `start_run`, `skip_run` and `stop_run`; Ticks.antt `tick` and `stop_now`. The calendar, the time zone and the parsers of
--   dates are chrono's, and a parameter (`Chrono`), with what is relied on in `IsZone`. What the nodes
--   answer is an argument.
--
-- * Feeds (node/src/sources/manager.rs): what runs on the monitors of a node's sources. Feeds.antt has what `apply`
--   puts in place and turns away and what `disconnect` takes; Replays.antt `sync_replays` and `set_replay`; Fed.antt and Runs.antt follow it
--   through any order of steps, and Served.antt what a look at the replays leaves. It and Sources are two halves of
--   `SourceManager`: `disconnect` stands in both, here without the sessions it stops. The sources that
--   `scan` lists and the outputs that it and `reconcile_outputs` drop are steps of any kind.
--
-- Parts meet in these places: a clip's hold is an entry of the index that `trim` reads; the claims that
-- `Clock.claim` answers come with the controller's health checks, whose results `Registry.record_success`
-- keeps, with the status of the node's clock; the clip that `Playlist.Deck.take` puts on air plays from the
-- base time of `Lanes.follow_on_base`. Prelude has what the parts share: tests, lists, maps, and
-- the checked subtraction and multiplication of machine words.
--
-- Bounds: where the code's arithmetic can leave its range and a theorem depends on it, the model panics
-- as a checked build does (`sub?`, `mul32?`). Numbers that count events (serials, failure counts, hold
-- ids) and times are not bounded.
--
-- Not modelled: GStreamer and what is built on it (recording, players, sources, streams, thumbnails),
-- the HTTP and WebSocket servers, the database, TLS, platform services, and the user interface. Of the
-- modelled files, logging and notifications of other tasks are left out; so are a clock's statistics
-- and status, the saving and exporting of replays, and how the benchmark measures.
mod Prelude
pub mod Benchmark
pub mod Replay
pub mod Clock
pub mod Registry
pub mod Ltc
pub mod Playlist
pub mod Lanes
pub mod Sources
pub mod Auth
pub mod Scheduler
pub mod Feeds
