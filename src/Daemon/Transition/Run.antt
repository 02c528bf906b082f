-- ===== src/Daemon/Transition/Run.antt =====
-- The daemon as a machine: any sequence of its methods, each called with surroundings of its own.
use whirl.Prelude.{List, [], ◌∷◌, Bool, Option, Text}
use whirl.Prelude.Int.{ℤ}
use whirl.Vocabulary.Via.{Via}
use whirl.Vocabulary.ErrorCode.{ErrorCode}
use whirl.Daemon.{Resolved, Env, Daemon}
use whirl.Daemon.Transition.{
  start_rotation, start_slot, record_success, record_failure, spend_slot, record_clock_jump,
  announce_heartbeat, set_paused, add_favorite, remove_favorite,
}
use whirl.Daemon.Rotation.{Reread, reconfigure, SweepEnd, record_sweep}

pub data Command : Type 0 where
  begin : Env → Command
  claim_slot : Command
  succeed : Env → Text → Text → Via → Option Text → Command
  fail : Env → ErrorCode → Text → Command
  spend : Env → ℤ → Command
  jump : Env → ℤ → ℤ → Command
  beat : Env → Command
  pause : Env → Bool → Command
  pin : Env → Resolved → Command
  unpin : Env → Text → Command
  reread : Reread → Command
  report : SweepEnd → Command

abbrev pub perform : Command → Daemon → Daemon
perform (begin env) d = (start_rotation env d).1
perform claim_slot d = (start_slot d).1
perform (succeed env digest origin_key via path) d = record_success env digest origin_key via path d
perform (fail env code message) d = record_failure env code message d
perform (spend env next_at) d = spend_slot env next_at d
perform (jump env seconds next_at) d = record_clock_jump env seconds next_at d
perform (beat env) d = announce_heartbeat env d
perform (pause env paused) d = set_paused env paused d
perform (pin env resolved) d = (add_favorite env resolved d).1
perform (unpin env id) d = (remove_favorite env id d).1
perform (reread outcome) d = reconfigure outcome d
perform (report end) d = record_sweep end d

-- The last command is the last that is performed.
abbrev pub perform_all : List Command → Daemon → Daemon
perform_all [] d = d
perform_all (command ∷ rest) d = perform_all rest (perform command d)
