-- ===== src/Daemon/Scheduler/Progress.antt =====
-- A due slot is run, once: which passes of the scheduler start a rotation, and how each leaves the
-- deadline.
use whirl.Prelude.{
  ℕ, ◌+◌, ◌*◌, ◌^◌, ◌<◌, ltb, le→leb, ◌≡◌, refl, Bool, true, false, ◌&&◌, not, Option, none, some,
  if◌then◌else◌, Option-cases, Bool-cases, inl, inr, arith,
}
use whirl.Prelude.Int.{ℤ, abs, leb_ℤ, ◌<ℤ◌, ◌≤ℤ◌}
use whirl.Schedule.{Observation, due, drift, tick, on_grid_after}
use whirl.Schedule.Grid.{on_grid_after-OnGrid}
use whirl.Daemon.{Daemon}
use whirl.Daemon.Scheduler.{Pass, act, step_at, step}
use whirl.Daemon.Scheduler.Rotated.{starts, Rotated, act-idle, act-busy, record_clock_jump-starts}

abbrev pub is_idle : Option ℕ → Bool
is_idle none = true
is_idle (some r) = false

-- Whether the deadline is there and has passed.
abbrev pub is_late : Option ℤ → ℤ → Bool
is_late none now = false
is_late (some next_at) now = leb_ℤ next_at now

tick_late :
    (previous current : Observation) (next_at : ℤ) (interval : ℕ)
    → leb_ℤ next_at current.wall ≡ true
    → tick previous current next_at interval ≡ due (on_grid_after next_at current.wall interval)
unfolding tick
tick_late previous current next_at interval h = ground arith

act-early :
    (p : Pass) (previous current : Observation) (next_at : ℤ) (interval : ℕ) (d : Daemon)
    → leb_ℤ next_at current.wall ≡ false
    → starts (act p (tick previous current next_at interval) d).events ≡ starts d.events
unfolding tick act
act-early p previous current next_at interval d h =
    elim (Bool-cases (ltb (2 * interval) (abs (drift previous current)))) [
      | inl far ↦ rw (h, far) (record_clock_jump-starts p.spending _ _ d)
      | inr near ↦ rw (h, near) refl
    ]

step_at-starts :
    (p : Pass) (previous current : Observation) (interval : ℕ) (paused : Bool) (next_at : Option ℤ)
    (d : Daemon)
    → starts (step_at p previous current interval paused next_at d).events
      ≡ starts d.events
        + (if not paused && is_late next_at current.wall && is_idle d.state.running then 1 else 0)
unfolding step_at
step_at-starts p previous current interval true next_at d = omega arith
step_at-starts p previous current interval false none d = omega arith
step_at-starts p previous current interval false (some next_at) d =
    elim (Bool-cases (leb_ℤ next_at current.wall)) [
      | inr early ↦ rw early (omega (arith, act-early p previous current next_at interval d early))
      | inl late ↦
          let next = on_grid_after next_at current.wall interval in
          rw (tick_late previous current next_at interval late, late)
            (elim (Option-cases d.state.running) [
              | inl idle ↦ ground (arith, (act-idle p next d idle).0.one_start)
              | inr (r, busy) ↦ ground (arith, act-busy p next d r busy)
            ])
    ]

-- A pass of the scheduler starts one rotation exactly where the schedule is not suspended, has a
-- deadline that the wall clock has reached, and no rotation is in flight; otherwise it starts none.
pub starts-step :
    (p : Pass) (previous current : Observation) (interval : ℕ) (d : Daemon)
    → starts (step p previous current interval d).events
      ≡ starts d.events
        + (if not d.state.paused && is_late d.state.next_at current.wall && is_idle d.state.running
            then 1
            else 0)
unfolding step
starts-step p previous current interval d =
    step_at-starts p previous current interval d.state.paused d.state.next_at d

step-step_at :
    (p : Pass) (previous current : Observation) (interval : ℕ) (d : Daemon)
    → step p previous current interval d
      ≡ step_at p previous current interval d.state.paused d.state.next_at d
unfolding step
step-step_at p previous current interval d = refl

step_at-late :
    (p : Pass) (previous current : Observation) (interval : ℕ) (next_at : ℤ) (d : Daemon)
    → leb_ℤ next_at current.wall ≡ true
    → step_at p previous current interval false (some next_at) d
      ≡ act p (due (on_grid_after next_at current.wall interval)) d
unfolding step_at
step_at-late p previous current interval next_at d h =
    rw (tick_late previous current next_at interval h) refl

step-late :
    (p : Pass) (previous current : Observation) (interval : ℕ) (d : Daemon) (next_at : ℤ)
    → d.state.paused ≡ false
    → d.state.next_at ≡ some next_at
    → next_at ≤ℤ current.wall
    → step p previous current interval d
      ≡ act p (due (on_grid_after next_at current.wall interval)) d
step-late p previous current interval d next_at awake armed late = cc (
  step-step_at p previous current interval d,
  step_at-late p previous current interval next_at d (le→leb _ _ late),
)

-- A deadline that has passed is acted on in the same pass: where the schedule is not suspended, no
-- rotation is in flight and the interval is below 2^63, one rotation is started under the next run
-- number and is over when the pass ends, whatever the worker answered, and the new deadline is ahead
-- of the wall clock.
pub step-Rotated :
    (p : Pass) (previous current : Observation) (interval : ℕ) (d : Daemon) (next_at : ℤ)
    → interval < 2 ^ 63
    → d.state.paused ≡ false
    → d.state.next_at ≡ some next_at
    → d.state.running ≡ none
    → next_at ≤ℤ current.wall
    → Rotated d (step p previous current interval d)
      × ((next : ℤ) × ((step p previous current interval d).state.next_at ≡ some next)
          × (current.wall <ℤ next))
step-Rotated p previous current interval d next_at small awake armed idle late =
    let next = on_grid_after next_at current.wall interval in
    let (rotated, deadline) = act-idle p next d idle in
    rw (step-late p previous current interval d next_at awake armed late)
      (rotated, (next, deadline, (on_grid_after-OnGrid next_at current.wall interval small).ahead))
