-- ===== src/StateFile/Integer.antt =====
-- A number of a state file as `u64`: the test of `opt_int_in` and `schema_of` on the `f64` that
-- `str::parse` makes of a literal, and the cast. A literal of digits is modelled down to the rounding;
-- one with a sign, a point or an exponent is an argument.
use whirl.Prelude.{
  ℕ, zero, suc, ◌+◌, ◌*◌, ◌-◌, ◌/◌, ◌%◌, ◌<◌, ◌≡◌, [], ◌∷◌, Bool, true, ◌&&◌, ◌||◌, Option, none,
  some, Text, ltb, leb, ◌==◌, All, refl, if◌then◌else◌, arith,
}
use whirl.Prelude.Decimal.{emit, decimal}
use whirl.Strings.Number.{is_decimal, u64_max, IsDecimal, decimal-IsDecimal}

-- The integers that an `f64` holds without a gap.
abbrev pub f64_exact : ℕ
f64_exact = 9007199254740992

-- `n` at a precision of `unit`, to nearest, a tie to even.
unfoldable pub to_unit : ℕ → ℕ → ℕ
to_unit unit n =
    let q = n / unit in
    let r = n % unit in
    if ltb unit (2 * r) || ((2 * r == unit) && (q % 2 == 1)) then suc q * unit else q * unit

-- The `f64` nearest to an integer. Doubling the unit 12 times reaches past 2^64, and what is above that
-- is no `u64` at any rounding.
unfoldable pub nearest : ℕ → ℕ → ℕ → ℕ
unfolding to_unit
nearest zero unit n = n
nearest (suc fuel) unit n =
    let coarser = nearest fuel (2 * unit) n in
    if ltb n (f64_exact * unit) then to_unit unit n else coarser

unfoldable pub all_digits : Text → Bool
unfolding is_decimal
all_digits [] = true
all_digits (c ∷ s) = is_decimal c && all_digits s

unfoldable pub value_of_digits : ℕ → Text → ℕ
value_of_digits acc [] = acc
value_of_digits acc (c ∷ s) = value_of_digits (acc * 10 + (c - b'0')) s

-- `value <= u64::MAX as f64`, which is 2^64, and the cast, which saturates.
unfoldable pub cast_u64 : ℕ → Option ℕ
cast_u64 value =
    if leb value (suc u64_max) then some (if ltb u64_max value then u64_max else value) else none

unfoldable pub as_u64 : (Text → Option ℕ) → Text → Option ℕ
unfolding all_digits value_of_digits nearest cast_u64
as_u64 other text =
    if all_digits text then cast_u64 (nearest 13 1 (value_of_digits 0 text)) else other text

all_digits-IsDecimal : (s : Text) → All IsDecimal s → all_digits s ≡ true
unfolding all_digits is_decimal
all_digits-IsDecimal [] h = refl
all_digits-IsDecimal (c ∷ s) h = ground (arith, all_digits-IsDecimal s h.1)

value_of_digits-emit :
    (fuel n : ℕ) (out : Text)
    → n < fuel
    → value_of_digits 0 (emit fuel n out) ≡ value_of_digits n out
unfolding value_of_digits emit
value_of_digits-emit zero n out h = absurd (omega arith)
value_of_digits-emit (suc fuel) n out h =
    ground (arith, value_of_digits-emit fuel (n / 10) ((b'0' + n % 10) ∷ out))

to_unit_one : (n : ℕ) → to_unit 1 n ≡ n
unfolding to_unit
to_unit_one n = ground arith

nearest_exact : (fuel n : ℕ) → n < f64_exact → nearest (suc fuel) 1 n ≡ n
unfolding nearest
nearest_exact fuel n h = ground (arith, to_unit_one n)

-- An integer that an `f64` holds exactly is read from what is displayed of it.
pub as_u64-decimal :
    (other : Text → Option ℕ) (n : ℕ) → n < f64_exact → as_u64 other (decimal n) ≡ some n
unfolding as_u64 cast_u64 decimal
as_u64-decimal other n h =
    rw
      (
        all_digits-IsDecimal (decimal n) (decimal-IsDecimal n),
        value_of_digits-emit (suc n) n [] (omega arith),
        nearest_exact 12 n h,
      )
      (ground arith)
