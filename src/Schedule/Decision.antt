-- ===== src/Schedule/Decision.antt =====
-- `tick`: what one pair of readings decides, and that a decision is not taken twice.
use whirl.Prelude.{
  ℕ, ◌-◌, ◌*◌, ◌^◌, ◌≤◌, ◌<◌, max, ◌≡◌, ◌≢◌, refl, ap, ltb, ◌⊎◌, inl, inr, Bool-cases, leb→le,
  ltb→lt, arith,
}
use whirl.Prelude.Int.{ℤ, pos, ◌+ℤ◌, ◌-ℤ◌, ◌≤ℤ◌, ◌<ℤ◌, leb_ℤ, abs, int_laws}
use whirl.Schedule.{
  Observation, Tick, wait, due, clock_jump, slice, from_secs, as_secs, saturate, remaining, drift,
  rearmed_from, tick,
}
use whirl.Schedule.Grid.{OnGrid, as_i64_pos, on_grid_after-OnGrid}

module _ (previous current : Observation) (next_at : ℤ) (interval_seconds : ℕ) where
  -- The rules of the clock, as a relation between the readings and the decision.
  pub data Decides : Tick → Type 0 where
    rotates :
        (next : ℤ)
        → next_at ≤ℤ current.wall
        → OnGrid next_at current.wall (max interval_seconds 1) next
        → Decides (due next)
    reanchors :
        (seconds next : ℤ)
        → current.wall <ℤ next_at
        → 2 * interval_seconds < abs (drift previous current)
        → previous.wall +ℤ seconds ≡ current.wall
        → next ≡ current.wall +ℤ pos (max interval_seconds 1)
        → Decides (clock_jump seconds next)
    sleeps :
        (length : ℕ)
        → current.wall <ℤ next_at
        → abs (drift previous current) ≤ 2 * interval_seconds
        → 0 < length
        → length ≤ slice
        → length ≤ from_secs (remaining next_at current.wall)
        → Decides (wait length)

  -- What the clock decides for two readings, a deadline and an interval below 2^63: a deadline that has
  -- passed rotates and moves on its grid; otherwise a drift of more than two intervals re-anchors it one
  -- interval from now; otherwise the daemon sleeps, a positive time no longer than the slice and than
  -- what is left.
  pub tick-Decides :
      interval_seconds < 2 ^ 63 → Decides (tick previous current next_at interval_seconds)
  unfolding tick rearmed_from
  tick-Decides h = elim (Bool-cases (leb_ℤ next_at current.wall)) [
    | inl late ↦
        rw late (
          rotates _ (leb→le _ _ late)
            (on_grid_after-OnGrid next_at current.wall interval_seconds h))
    | inr early ↦ elim (Bool-cases (ltb (2 * interval_seconds) (abs (drift previous current)))) [
      | inl far ↦
          rw (early, far)
            (reanchors _ _ (ground arith) (ltb→lt _ _ far) (omega int_laws)
              (ap (◌+ℤ◌ current.wall) (as_i64_pos (max interval_seconds 1) (omega arith))))
      | inr near ↦
          rw (early, near)
            (sleeps _ (ground arith) (ground arith) (ground arith) (omega arith) (omega arith))
    ]
  ]

abbrev pub IsDue : Tick → Type 0
IsDue (wait d) = ⊥
IsDue (due n) = Unit {0}
IsDue (clock_jump s n) = ⊥

-- A due slot is spent by one decision: at the deadline it sets, the same reading and every later one
-- up to that deadline decide no rotation, so the missed slots make one rotation and no burst.
pub tick_once :
    (previous current later : Observation) (next_at next : ℤ) (interval_seconds : ℕ)
    → interval_seconds < 2 ^ 63
    → tick previous current next_at interval_seconds ≡ due next
    → later.wall <ℤ next ⊎ later.wall ≤ℤ current.wall
    → ¬ IsDue (tick current later next interval_seconds)
unfolding tick
tick_once previous current later next_at next interval_seconds small decided when =
    ground (arith, on_grid_after-OnGrid next_at current.wall interval_seconds small)

module _ (previous current : Observation) (seconds : ℕ) where
  drift_agreeing :
      seconds < 2 ^ 63
      → as_secs (current.monotonic - previous.monotonic) ≡ seconds
      → current.wall ≡ previous.wall +ℤ pos seconds
      → drift previous current ≡ pos 0
  unfolding drift
  drift_agreeing small slept moved =
      rw (slept, as_i64_pos seconds small, same) (unfold saturate in refl)
    where
      same : current.wall -ℤ previous.wall -ℤ pos seconds ≡ pos 0
      same = rw moved (omega int_laws)

  -- Between two readings on which both clocks agree no clock jump is announced, whatever the deadline:
  -- the daemon waits, or it rotates.
  tick_agreeing :
      (next_at new moved : ℤ) (interval_seconds : ℕ)
      → seconds < 2 ^ 63
      → as_secs (current.monotonic - previous.monotonic) ≡ seconds
      → current.wall ≡ previous.wall +ℤ pos seconds
      → tick previous current next_at interval_seconds ≢ clock_jump moved new
  unfolding tick
  tick_agreeing next_at new moved interval_seconds small slept same =
      rw (drift_agreeing small slept same) (ground arith)
