-- ===== src/Tests/Schedule.antt =====
-- The decision function at readings of the source's own tests.
use whirl.Prelude.{ℕ, ◌≡◌, refl, inl, max, arith}
use whirl.Prelude.Int.{pos, ◌+ℤ◌}
use whirl.Schedule.{Observation, tick, due, from_secs, advance, as_i64, on_grid_after}
use whirl.Schedule.Grid.{OnGrid, on_grid_after-OnGrid}
use whirl.Schedule.Decision.{Decides, tick-Decides, IsDue, tick_once}

abbrev at : ℕ → ℕ → Observation
at wall seconds = record { wall = pos wall; monotonic = from_secs seconds }

-- A machine that slept through three slots.
slept : tick (at 1_000 0) (at 6_407 5_407) (pos 1_000) 1_800 ≡ due (pos 8_200)
unfolding tick on_grid_after advance ◌+ℤ◌ as_i64
slept = refl

on_grid_after_example :
    OnGrid (pos 1_000) (pos 6_407) (max 1_800 1) (on_grid_after (pos 1_000) (pos 6_407) 1_800)
on_grid_after_example = on_grid_after-OnGrid (pos 1_000) (pos 6_407) 1_800 (omega arith)

tick-Decides_example :
    Decides
      (at 1_000 0)
      (at 6_407 5_407)
      (pos 1_000)
      1_800
      (tick (at 1_000 0) (at 6_407 5_407) (pos 1_000) 1_800)
tick-Decides_example = tick-Decides (at 1_000 0) (at 6_407 5_407) (pos 1_000) 1_800 (omega arith)

tick_once_example : ¬ IsDue (tick (at 6_407 5_407) (at 6_412 5_412) (pos 8_200) 1_800)
tick_once_example =
    tick_once (at 1_000 0) (at 6_407 5_407) (at 6_412 5_412) (pos 1_000) (pos 8_200) 1_800
      (omega arith) slept (inl (omega arith))
