-- ===== src/Daemon/Save.antt =====
-- `Daemon::save_current`, `save_history` and `save_favorites`: what each file says.
use whirl.Prelude.{ℕ, ◌++◌, Bool, false, Option, none, some, Text, codes, ltb, if◌then◌else◌}
use whirl.Prelude.Int.{ℤ}
use whirl.Prelude.Decimal.{decimal}
use whirl.Timestamp.{rfc3339_utc}
use whirl.Vocabulary.ErrorCode.{ErrorCode}
use whirl.Vocabulary
use whirl.Cache.{Survey}
use whirl.Cache.Disk.{Outcome, ok, fault}
use whirl.Cache.Measure.{survey}
use whirl.Daemon.{Current, State, Anchor, CacheFacts, CurrentFile, Config, Env, Daemon}
use whirl.Daemon.Resolve.{values}

stamp_of : Option ℤ → Option Text
stamp_of none = none
stamp_of (some next_at) = some (rfc3339_utc next_at)

error_of : Option ErrorCode → Option Text
error_of none = none
error_of (some code) = some (Vocabulary.ErrorCode.as_str code)

unfoldable pub anchor_of : Config → Option Current → Option Anchor
anchor_of config none = none
anchor_of config (some current) = some (record {
  digest = current.digest;
  cached_path = current.path;
  set_at = some current.at;
  display_mode = some config.display_mode;
})

flag : Bool → ℕ
flag b = if b then 1 else 0

facts_of : Config → Option Text → Outcome Survey → Option CacheFacts
unfolding flag
facts_of config root_id (fault e) = none
facts_of config root_id (ok survey) = some (record {
  root_id = root_id;
  files = survey.files;
  bytes = survey.bytes;
  over_cap_bytes = flag (ltb config.cache.max_bytes survey.bytes);
  over_cap_files = flag (ltb config.cache.max_files survey.files);
})

unfoldable pub written_by : Env → ℕ → Text
written_by env run =
    codes "whirl/"
    ++ env.version
    ++ codes " pid="
    ++ decimal env.pid
    ++ codes " run="
    ++ decimal run

unfoldable pub current_of : Env → State → CurrentFile
unfolding stamp_of error_of anchor_of facts_of
current_of env s = record {
  seq = s.seq;
  written_at = rfc3339_utc env.now;
  written_by = some (written_by env s.last_run);
  paused = s.paused;
  rotation_count = s.rotation_count;
  next_at = stamp_of s.next_at;
  last_error = error_of s.last_error;
  anchor = anchor_of env.config s.current;
  cache = facts_of env.config s.cache_root_id (survey env.cache_dir env.disk).0;
}

unfoldable pub save_current : Env → Daemon → Daemon
save_current env d =
    if d.state.read_only_current
    then d
    else if env.current_writable
    then record d { current_file = some (current_of env d.state) }
    else d

unfoldable pub save_history : Env → Daemon → Daemon
save_history env d =
    if d.state.read_only_history
    then d
    else if env.history_writable
    then record d {
      history_file = some (record {
        seq = d.state.seq;
        written_at = rfc3339_utc env.now;
        entries = d.state.history.entries;
      });
      state = record d.state { history_lost = false };
    }
    else d

unfoldable pub save_favorites : Env → Daemon → Daemon
save_favorites env d =
    if d.state.read_only_favorites
    then d
    else if env.favorites_writable
    then record d {
      favorites_file = some (record {
        seq = d.state.seq;
        written_at = rfc3339_utc env.now;
        entries = values d.state.favorites;
      });
    }
    else d
