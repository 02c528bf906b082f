-- ===== src/Daemon/Rotation.antt =====
-- `Daemon::rotation` of crates/whirld/src/state.rs, in its steps that change the daemon's state: the
-- configuration is read again, the worker's answer is recorded, and the sweep after it is reported.
-- What the worker answers, what the file of the configuration holds and what the sweep did are
-- given: the sweep itself is `Cache.Sweep`.
use whirl.Prelude.{
  ◌+◌, List, [], ◌∷◌, ◌++◌, Bool, true, false, Option, none, some, Text, codes, if◌then◌else◌,
}
use whirl.Vocabulary.Via.{Via}
use whirl.Vocabulary.ErrorCode.{ErrorCode}
use whirl.Events.{config_reloaded, cache_swept}
use whirl.Cache.{Attempt, ran, Swept}
use whirl.Daemon.{Env, Daemon, announce}
use whirl.Daemon.Transition.{record_success, record_failure}

-- Whether the configuration file was read and parsed.
pub data Reread : Type 0 where
  loaded rejected : Reread

unfoldable pub reconfigure : Reread → Daemon → Daemon
unfolding announce
reconfigure loaded d = announce config_reloaded d
reconfigure rejected d = record d {
  state = record d.state { last_error = some ErrorCode.bad_config };
}

-- How a worker ends: `Outcome` and `WorkerError`.
pub data Answer : Type 0 where
  set : (digest origin_key : Text) (path : Option Text) → Answer
  lines : List Text → Answer
  timeout : Answer
  failed : ErrorCode → Text → Answer

-- `lines.join(" | ")`.
join_bars : List Text → Text
join_bars [] = []
join_bars (l ∷ []) = l
join_bars (l ∷ m ∷ ls) = l ++ (codes " | " ++ join_bars (m ∷ ls))

unfoldable pub settle : Env → Via → Answer → Daemon → Daemon
unfolding record_success record_failure join_bars
settle env via (set digest origin_key path) d = record_success env digest origin_key via path d
settle env via (lines ls) d =
    record_failure env ErrorCode.worker_failed
      (codes "the worker answered a rotation with check lines: " ++ join_bars ls) d
settle env via timeout d =
    record_failure env ErrorCode.timeout
      (codes "the worker did not finish inside schedule.worker_deadline_seconds") d
settle env via (failed code message) d = record_failure env code message d

-- What a sweep attempt came to: `Some(swept)` where it ran to its end, and the root id that the index
-- carries after it, `none` where it has none or cannot be read.
pub record SweepEnd : Type 0 where
  pub attempt : Attempt
  pub swept : Option Swept
  pub root_id : Option Text

unfoldable pub has_run : Attempt → Bool
has_run ran = true
has_run _ = false

unfoldable pub root_after : SweepEnd → Option Text → Option Text
unfolding has_run
root_after s (some id) = some id
root_after s none = if has_run s.attempt then s.root_id else none

unfoldable pub announce_swept : Option Swept → Daemon → Daemon
unfolding announce
announce_swept none d = d
announce_swept (some s) d =
    announce (cache_swept (s.removed + s.reclaimed + s.orphans) s.freed_bytes s.hidden) d

unfoldable pub record_sweep : SweepEnd → Daemon → Daemon
unfolding announce_swept root_after
record_sweep s d = announce_swept s.swept (record d {
  state = record d.state { sweep = s.attempt; cache_root_id = root_after s d.state.cache_root_id };
})

-- One rotation in a slot that has been claimed.
unfoldable pub rotation : Env → Via → Reread → Answer → SweepEnd → Daemon → Daemon
unfolding reconfigure settle record_sweep
rotation env via reread answer end d =
    record_sweep end (settle env via answer (reconfigure reread d))
