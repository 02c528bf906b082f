-- ===== src/Daemon/Countdown.antt =====
-- The countdown that `status` reports, and the pass of the scheduler that it counts down to.
use whirl.Prelude.{ℕ, ◌+◌, ◌^◌, ◌<◌, ◌≡◌, ◌∙◌, false, none, some, if◌then◌else◌, arith}
use whirl.Prelude.Int.{ℤ, pos, ◌+ℤ◌, ◌-ℤ◌, ◌≤ℤ◌, leb_ℤ, +ℤ_parts, -ℤ_parts}
use whirl.Schedule.{Observation, as_i64}
use whirl.Daemon.{Daemon}
use whirl.Daemon.Resolve.{clamp, next_in_s}
use whirl.Daemon.Scheduler.{Pass, step}
use whirl.Daemon.Scheduler.Rotated.{starts}
use whirl.Daemon.Scheduler.Progress.{starts-step}
use whirl.Daemon.Pins.{next_in_s_bounds}

-- A deadline within one interval is late after as many seconds as are counted, and not before.
counted_late :
    (now next n : ℤ) (interval m : ℕ)
    → interval < 2 ^ 63
    → next ≤ℤ now +ℤ pos interval
    → clamp (pos 0) (as_i64 interval) (next -ℤ now) ≡ n
    → leb_ℤ next (now +ℤ pos m) ≡ leb_ℤ n (pos m)
unfolding clamp as_i64
counted_late now next n interval m small within h =
    ground (arith, +ℤ_parts now (pos interval), +ℤ_parts now (pos m), -ℤ_parts next now)

module _ (d : Daemon) (now next n : ℤ) (interval m : ℕ) (p : Pass)
    (previous current : Observation) where
  counted :
      next_in_s d.state now interval ≡ some n
      → d.state.next_at ≡ some next
      → clamp (pos 0) (as_i64 interval) (next -ℤ now) ≡ n
  unfolding next_in_s
  counted h e = ground (arith, e)

  -- Where `status` reports a countdown, the schedule is not suspended and the count lies between 0 and
  -- one interval. Where the deadline is no further than one interval and no rotation is in flight, a pass
  -- of the scheduler starts one rotation once as many seconds have gone by as were counted, and none
  -- before. The interval is one that an i64 can hold.
  pub next_in_s-starts :
      interval < 2 ^ 63
      → next_in_s d.state now interval ≡ some n
      → d.state.next_at ≡ some next
      → next ≤ℤ now +ℤ pos interval
      → d.state.running ≡ none
      → current.wall ≡ now +ℤ pos m
      → (d.state.paused ≡ false)
        × (pos 0 ≤ℤ n)
        × (n ≤ℤ pos interval)
        × (starts (step p previous current interval d).events
            ≡ starts d.events + (if leb_ℤ n (pos m) then 1 else 0))
  next_in_s-starts small h e within idle later =
      let (awake, low, high) = next_in_s_bounds d.state now n interval small h in
      let late = counted_late now next n interval m small within (counted h e) in
      (
        awake,
        low,
        high,
        starts-step p previous current interval d ∙ rw (awake, e, idle, later, late) (ground arith),
      )
