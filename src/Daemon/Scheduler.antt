-- ===== src/Daemon/Scheduler.antt =====
-- `step` and `rotate` of crates/whirld/src/scheduler.rs: one pass of the loop that drives the clock's
-- decision, the slot, and the rotation a due slot runs.
pub mod Rotated
pub mod Progress
pub mod Machine
use whirl.Prelude.{ℕ, List, [], ◌∷◌, Bool, true, false, Option, none, some}
use whirl.Prelude.Int.{ℤ}
use whirl.Vocabulary.Via.{source}
use whirl.Schedule.{Observation, Tick, wait, due, clock_jump, tick}
use whirl.Daemon.{Env, Daemon}
use whirl.Daemon.Transition.{
  Started, started, refused, start_rotation, spend_slot, record_clock_jump,
}
use whirl.Daemon.Rotation.{Reread, Answer, SweepEnd, rotation}

-- What one pass meets: the surroundings as the slot is spent, as the rotation starts and as it ends,
-- and what the rotation gets from outside.
pub record Pass : Type 0 where
  pub spending : Env
  pub starting : Env
  pub ending : Env
  pub reread : Reread
  pub answer : Answer
  pub swept : SweepEnd

-- The rotation where one was started; where another is in flight it is refused.
unfoldable pub rotate_started : Pass → Started × Daemon → Daemon
unfolding rotation
rotate_started p (started run, d) = rotation p.ending source p.reread p.answer p.swept d
rotate_started p (refused run, d) = d

unfoldable pub rotate : Pass → Daemon → Daemon
unfolding rotate_started start_rotation
rotate p d = rotate_started p (start_rotation p.starting d)

unfoldable pub act : Pass → Tick → Daemon → Daemon
unfolding rotate spend_slot record_clock_jump
act p (wait length) d = d
act p (clock_jump seconds next_at) d = record_clock_jump p.spending seconds next_at d
act p (due next_at) d = rotate p (spend_slot p.spending next_at d)

unfoldable pub step_at : Pass → Observation → Observation → ℕ → Bool → Option ℤ → Daemon → Daemon
step_at p previous current interval true next_at d = d
step_at p previous current interval false none d = d
step_at p previous current interval false (some next_at) d =
    act p (tick previous current next_at interval) d

unfoldable pub step : Pass → Observation → Observation → ℕ → Daemon → Daemon
unfolding step_at
step p previous current interval d =
    step_at p previous current interval d.state.paused d.state.next_at d

-- `run`, for as many passes as the list has: each with its reading of the clocks and the interval of
-- the configuration.
unfoldable pub run : List (Observation × ℕ × Pass) → Observation → Daemon → Daemon
unfolding step
run [] previous d = d
run ((current, interval, p) ∷ passes) previous d =
    run passes current (step p previous current interval d)
