-- ===== src/Tests/Scheduler.antt =====
-- A due slot whose worker times out, and a pass of a daemon that is paused.
use whirl.Prelude.{◌+◌, ◌≡◌, refl, false, none, some, not, ◌&&◌, if◌then◌else◌, arith}
use whirl.Prelude.Int.{ℤ, pos, ◌<ℤ◌, ◌≤ℤ◌, ◌+ℤ◌, leb_ℤ}
use whirl.Schedule.{Observation}
use whirl.Cache.{deferred}
use whirl.Daemon.{Daemon, new_state}
use whirl.Daemon.Resolve.{next_in_s}
use whirl.Daemon.Countdown.{next_in_s-starts}
use whirl.Daemon.Rotation.{rejected, timeout}
use whirl.Daemon.Scheduler.{Pass, step}
use whirl.Daemon.Scheduler.Rotated.{Rotated, starts}
use whirl.Daemon.Scheduler.Progress.{is_late, is_idle, starts-step, step-Rotated}
use whirl.Tests.Daemon.{env, first_state, first_daemon}

abbrev armed : Daemon
armed = record first_daemon { state = record first_state { next_at = some (pos 900) } }

abbrev timed_out : Pass
timed_out = record {
  spending = env;
  starting = env;
  ending = env;
  reread = rejected;
  answer = timeout;
  swept = record { attempt = deferred; swept = none; root_id = none };
}

abbrev before : Observation
before = record { wall = pos 899; monotonic = 0 }

abbrev now : Observation
now = record { wall = pos 900; monotonic = 1_000_000_000 }

awake : armed.state.paused ≡ false
unfolding new_state
awake = refl

idle : armed.state.running ≡ none
unfolding new_state
idle = refl

step-Rotated_example :
    Rotated armed (step timed_out before now 1_800 armed)
    × ((next : ℤ) × ((step timed_out before now 1_800 armed).state.next_at ≡ some next)
        × (now.wall <ℤ next))
step-Rotated_example =
    step-Rotated timed_out before now 1_800 armed (pos 900) (omega arith) awake refl idle
      (omega arith)

starts-step_example :
    starts (step timed_out before now 1_800 armed).events
    ≡ starts armed.events
      + (if not armed.state.paused
            && is_late armed.state.next_at now.wall
            && is_idle armed.state.running
          then 1
          else 0)
starts-step_example = starts-step timed_out before now 1_800 armed

-- One second before the deadline, a count of one second, and the pass one second later.
counting_down : next_in_s armed.state (pos 899) 1_800 ≡ some (pos 1)
unfolding next_in_s new_state
counting_down = refl

next_in_s-starts_example :
    (armed.state.paused ≡ false)
    × (pos 0 ≤ℤ pos 1)
    × (pos 1 ≤ℤ pos 1_800)
    × (starts (step timed_out before now 1_800 armed).events
        ≡ starts armed.events + (if leb_ℤ (pos 1) (pos 1) then 1 else 0))
unfolding ◌+ℤ◌
next_in_s-starts_example =
    next_in_s-starts armed (pos 899) (pos 900) (pos 1) 1_800 1 timed_out before now (omega arith)
      counting_down refl (omega arith) idle refl
