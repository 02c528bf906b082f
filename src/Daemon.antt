-- ===== src/Daemon.antt =====
-- The daemon's state of crates/whirld/src/state.rs: the records, what a method reads from its
-- surroundings, and what it writes.
pub mod Resolve
pub mod Save
pub mod Transition
pub mod Rotation
pub mod Scheduler
pub mod Protects
pub mod Lookup
pub mod Pins
pub mod Countdown
use whirl.Prelude.{
  ℕ, zero, suc, ◌+◌, List, [], ◌∷◌, Bool, true, false, Option, none, some, Text, if◌then◌else◌,
}
use whirl.Prelude.Int.{ℤ}
use whirl.Map.{Map}
use whirl.Vocabulary.Kind.{Kind}
use whirl.Vocabulary.Via.{Via}
use whirl.Vocabulary.ErrorCode.{ErrorCode}
use whirl.State.{HistoryEntry, HistoryRing, Favorite, new_ring}
use whirl.Events.{Event}
use whirl.Cache.{Attempt, CacheConfig, pending}
use whirl.Cache.Disk.{Disk}

pub record Current : Type 0 where
  pub digest : Text
  pub origin_key : Option Text
  pub via : Option Via
  pub kind : Kind
  pub path : Option Text
  pub at : Text

-- `read_only` by file, in the order of `File::index`.
pub record State : Type 0 where
  pub seq : ℕ
  pub paused : Bool
  pub slot : ℕ
  pub last_run : ℕ
  pub running : Option ℕ
  pub rotation_count : ℕ
  pub last_error : Option ErrorCode
  pub anchor_verified : Bool
  pub clock_jump : ℕ
  pub history : HistoryRing
  pub favorites : Map Favorite
  pub current : Option Current
  pub next_at : Option ℤ
  pub cache_root_id : Option Text
  pub sweep : Attempt
  pub cache_writable : Bool
  pub state_corrupt : Option Text
  pub state_quarantined : Option Text
  pub state_schema_newer : Bool
  pub history_lost : Bool
  pub favorites_degraded : Bool
  pub read_only_current : Bool
  pub read_only_history : Bool
  pub read_only_favorites : Bool

unfoldable pub new_state : ℕ → State
unfolding new_ring
new_state history_bound = record {
  seq = 0;
  paused = false;
  slot = 1;
  last_run = 0;
  running = none;
  rotation_count = 0;
  last_error = none;
  anchor_verified = false;
  clock_jump = 0;
  history = new_ring history_bound;
  favorites = [];
  current = none;
  next_at = none;
  cache_root_id = none;
  sweep = pending;
  cache_writable = true;
  state_corrupt = none;
  state_quarantined = none;
  state_schema_newer = false;
  history_lost = false;
  favorites_degraded = false;
  read_only_current = false;
  read_only_history = false;
  read_only_favorites = false;
}

-- A resolved `<path|id>` argument.
pub record Resolved : Type 0 where
  pub origin_key : Text
  pub digest : Option Text
  pub kind : Kind
  pub path : Option Text

pub data SourceKind : Type 0 where
  local wallhaven : SourceKind

pub data LocalMode : Type 0 where
  reference copy : LocalMode

-- What the daemon reads of a configured source.
pub record SourceConfig : Type 0 where
  pub id : Text
  pub kind : SourceKind
  pub local : Option LocalMode

-- What the daemon reads of its configuration; `display_mode` is `display.mode.as_str()`.
pub record Config : Type 0 where
  pub interval_seconds : ℕ
  pub sources : List SourceConfig
  pub cache : CacheConfig
  pub display_mode : Text

pub record Anchor : Type 0 where
  pub digest : Text
  pub cached_path : Option Text
  pub set_at : Option Text
  pub display_mode : Option Text

pub record CacheFacts : Type 0 where
  pub root_id : Option Text
  pub files : ℕ
  pub bytes : ℕ
  pub over_cap_bytes : ℕ
  pub over_cap_files : ℕ

pub record CurrentFile : Type 0 where
  pub seq : ℕ
  pub written_at : Text
  pub written_by : Option Text
  pub paused : Bool
  pub rotation_count : ℕ
  pub next_at : Option Text
  pub last_error : Option Text
  pub anchor : Option Anchor
  pub cache : Option CacheFacts

pub record HistoryFile : Type 0 where
  pub seq : ℕ
  pub written_at : Text
  pub entries : List HistoryEntry

pub record FavoritesFile : Type 0 where
  pub seq : ℕ
  pub written_at : Text
  pub entries : List Favorite

-- What a method reads: the clock, the process, the configuration, the cache, and what the operating
-- system answers to a write of a state file, to the probe of the cache and to `Path::exists`.
pub record Env : Type 0 where
  pub now : ℤ
  pub pid : ℕ
  pub version : Text
  pub cache_dir : Text
  pub config : Config
  pub disk : Disk
  pub probe_cache_writable : Bool
  pub current_writable : Bool
  pub history_writable : Bool
  pub favorites_writable : Bool
  pub exists : Text → Bool

-- The daemon: its state, the events it broadcast with their numbers, the newest first, and the three
-- files of its state directory.
pub record Daemon : Type 0 where
  pub state : State
  pub events : List (ℕ × Event)
  pub current_file : Option CurrentFile
  pub history_file : Option HistoryFile
  pub favorites_file : Option FavoritesFile

-- `bus.broadcast` sends `Event.line seq event`.
unfoldable pub announce : Event → Daemon → Daemon
announce event d =
    let seq = d.state.seq + 1 in
    record d { state = record d.state { seq = seq }; events = (seq, event) ∷ d.events }
