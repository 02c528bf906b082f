-- ===== src/Lib.antt =====
-- A model of whirl, a wallpaper daemon, with the theorems that make its parts correct.
--
-- The daemon (crates/whirld) keeps a state, decides by a clock when the wallpaper rotates, runs a
-- worker for each rotation, records what the worker set, and holds the image cache to its caps with a
-- sweep. The shared crate (crates/whirl-core) holds the words of the protocol, the digests, the
-- timestamps and the records that both sides read.
--
-- Schedule: crates/whirld/src/schedule.rs. `tick` compares two readings of both clocks with the
--   deadline. The loop of `on_grid_after` runs on fuel, one more than the seconds that the deadline is
--   late, which is enough since each round advances by a second at least.
-- Sha256, Timestamp, Vocabulary: crates/whirl-core/src/protocol.rs. The hasher is modelled down to its
--   compression function; words are numbers below 2^32 with their wrap-around written out. The padding
--   loop runs on fuel 64, which the blocks' length makes enough.
-- Map: `BTreeMap` with texts as keys, an association list in the order of the keys.
-- State: the history ring, the records and their `entry:` lines of crates/whirl-core/src/state.rs. The
--   popping loop runs on the number of entries, since each round takes one.
-- Cache: crates/whirld/src/cache.rs. The disk is the list of its files by path, the cache's index, and
--   what the operating system refuses; every operation that may fail returns its outcome and the disk
--   as it then is, so a sweep that stops half-way is a run like any other. A path is its text. Cache.Disk
--   is the disk, Cache.Measure the survey, Cache.Evict the removing loops, Cache.Sweep the sweep,
--   Cache.Record the entry for a reported file; the eviction loop runs on the number of entries of the
--   index, since each round takes one.
-- Strings: the functions of Rust's `str` that take lines apart, on texts as lists of bytes.
-- Protocol: crates/whirl-core/src/protocol.rs. Protocol.Request is a request and its line,
--   Protocol.Parse reads it, Protocol.Parse.Grammar says apart from it what a line means,
--   Protocol.Response frames a reply, Protocol.Line tells the kinds of lines and
--   has the greeting, Protocol.Record has the records that lines carry. `usize` has 64 bits. The version
--   of the build and the printing of a quoted text are arguments.
-- Events: `Event` and its line, and in Events.Bus the bus, crates/whirld/src/events.rs. A subscriber's
--   own thread is an action among the others, so a run is any interleaving of them.
-- Daemon: crates/whirld/src/state.rs. Daemon.Resolve reads the state, Daemon.Save says what the state
--   files hold, Daemon.Transition has the methods that change the state, and Daemon.Transition.Run puts
--   them in any order. A method reads its surroundings (the clock, the configuration, the answers of the
--   operating system) from `Env`. The protected set that the daemon builds is what the sweep reads.
--   Daemon.Rotation is one rotation, with the worker's answer, the outcome of reading the configuration
--   again and the outcome of the sweep given from outside.
-- Daemon.Scheduler: crates/whirld/src/scheduler.rs. A pass reads the clocks and runs a due slot; the
--   loop runs for as many passes as it is given.
--   The source releases the lock between its reading of the state and the start of the rotation; here
--   a pass is one step. Daemon.Countdown compares the countdown of `next_in_s` with the passes.
-- Pipeline: crates/whirl-worker/src/pipeline.rs, the filter stages (Pipeline.Filter.Admits says what a
--   candidate must be, apart from their code), the order of the sources, and in
--   Pipeline.Sniff what the first bytes of a file say of its format and dimensions: the sniffers of PNG,
--   JPEG and WebP, the walk over the boxes of a HEIC, and the head window. An index out of range is the
--   outcome `panic`; a walk has as much fuel as there are bytes, since each turn goes further in. The
--   test of a ratio is in floating point and is an argument.
-- Json: the JSON reader, module `json` of crates/whirl-core/src/config.rs, and the writer of the command
--   line, `write_json` of crates/whirl-cli/src/report.rs, with `string` of crates/whirl-core/src/state.rs.
--   Json has the cursor, Json.Strings, Json.Numbers and Json.Parser the reader's methods, Json.Write the
--   writers. The reader's recursion runs on fuel, one more than the bytes of the text, which is enough
--   since each call has a byte more behind it. A number is kept as its literal, and how it is displayed
--   is an argument. An error is a reason and a line, not its wording. The depth of the call stack is not
--   modelled.
-- StateFile: current.json, history.json, favorites.json and index.json of crates/whirl-core/src/state.rs.
--   StateFile.Fields reads the fields of a tree, StateFile.Integer a number as `u64`: a literal of digits is rounded as an
--   `f64` is, and which number another literal is (a sign, a point, an exponent) is an argument.
--   StateFile.Current, StateFile.History, StateFile.Favorites and StateFile.Index have `parse` and `encode` of each file.
-- Http: crates/whirl-worker/src/http.rs, what is written to the program that makes the request.
-- Tests: runs at concrete inputs.
--
-- Integers of Rust are exact here, but for the hasher's words and lengths, the casts of the clock and its
-- saturating difference; a counter does not reach its bound. So the seconds that the configuration sets
-- are below 2^63, which makes the casts of a grace to `i64` exact, and a deadline plus one interval does
-- not overflow. A path below a folder is one whose text begins with the folder's and a slash, where the
-- source compares the parts of paths.
--
-- Not modelled: the socket, the locks, the writing of files through a temporary one, the processes and
-- their pipes, the sleeping of the scheduler's thread, the worker's downloads, sources, backends and HTTP
-- processes, the schema of the configuration, the `source:` record, and the
-- command-line client but for its writer. The identity of a new cache is drawn from the system's entropy
-- and is an argument of the sweep.
pub mod Prelude
pub mod Schedule
pub mod Sha256
pub mod Timestamp
pub mod Strings
pub mod Map
pub mod Vocabulary
pub mod Protocol
pub mod Cache
pub mod State
pub mod Events
pub mod Pipeline
pub mod Http
pub mod Json
pub mod Tests
pub mod Daemon
pub mod StateFile
