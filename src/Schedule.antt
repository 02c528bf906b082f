-- ===== src/Schedule.antt =====
-- crates/whirld/src/schedule.rs: the decision function of the daemon's clock. A wall-clock reading is
-- an integer of seconds, a `Duration` is a number of nanoseconds.
pub mod Grid
pub mod Decision
use whirl.Prelude.{
  ℕ, zero, suc, ◌+◌, ◌-◌, ◌*◌, ◌/◌, ◌^◌, min, max, Bool, true, false, ltb, if◌then◌else◌,
}
use whirl.Prelude.Int.{ℤ, pos, negsuc, pos_part, neg_part, ◌+ℤ◌, ◌-ℤ◌, leb_ℤ, ltb_ℤ, abs}

abbrev pub nanos_per_second : ℕ
nanos_per_second = 1_000_000_000

-- `Duration::from_secs` and `Duration::as_secs`.
abbrev pub from_secs : ℕ → ℕ
from_secs s = s * nanos_per_second

abbrev pub as_secs : ℕ → ℕ
as_secs d = d / nanos_per_second

abbrev pub slice : ℕ
slice = from_secs 5

-- `n as i64` of a u64: the bit pattern read as a signed number.
unfoldable pub as_i64 : ℕ → ℤ
as_i64 n = if ltb n (2 ^ 63) then pos n else negsuc (2 ^ 64 - n - 1)

-- `i64::saturating_sub` holds an exact difference to the range of i64.
unfoldable pub saturate : ℤ → ℤ
saturate z =
    if ltb_ℤ z (negsuc (2 ^ 63 - 1))
    then negsuc (2 ^ 63 - 1)
    else if ltb_ℤ (pos (2 ^ 63 - 1)) z
    then pos (2 ^ 63 - 1)
    else z

pub record Observation : Type 0 where
  pub wall : ℤ
  pub monotonic : ℕ

pub data Tick : Type 0 where
  wait : ℕ → Tick
  due : ℤ → Tick
  clock_jump : ℤ → ℤ → Tick

-- `while value <= now { value += interval; }`, for at most `fuel` rounds.
unfoldable pub advance : ℕ → ℤ → ℤ → ℤ → ℤ
advance zero interval now value = value
advance (suc fuel) interval now value = elim (leb_ℤ value now) [
  | true ↦ advance fuel interval now (value +ℤ interval)
  | false ↦ value
]

-- Rounds that suffice: one more than the seconds that the deadline is late.
abbrev pub rounds : ℤ → ℤ → ℕ
rounds value now = suc (pos_part now + neg_part value - (pos_part value + neg_part now))

unfoldable pub on_grid_after : ℤ → ℤ → ℕ → ℤ
on_grid_after next_at now interval_seconds =
    advance (rounds next_at now) (as_i64 (max interval_seconds 1)) now next_at

unfoldable pub rearmed_from : ℤ → ℕ → ℤ
rearmed_from now interval_seconds = now +ℤ as_i64 (max interval_seconds 1)

-- `(next_at - current.wall) as u64`; the deadline is ahead where the source computes it.
abbrev pub remaining : ℤ → ℤ → ℕ
remaining next_at now = pos_part next_at + neg_part now - (pos_part now + neg_part next_at)

-- How far the wall clock ran away from real time between two readings.
unfoldable pub drift : Observation → Observation → ℤ
drift previous current =
    let wall_delta = current.wall -ℤ previous.wall in
    let monotonic_delta = as_i64 (as_secs (current.monotonic - previous.monotonic)) in
    saturate (wall_delta -ℤ monotonic_delta)

unfoldable pub tick : Observation → Observation → ℤ → ℕ → Tick
tick previous current next_at interval_seconds =
    if leb_ℤ next_at current.wall
    then due (on_grid_after next_at current.wall interval_seconds)
    else if ltb (2 * interval_seconds) (abs (drift previous current))
    then clock_jump (current.wall -ℤ previous.wall) (rearmed_from current.wall interval_seconds)
    else wait (min (from_secs (remaining next_at current.wall)) slice)
