-- ===== src/Prelude/Decimal.antt =====
-- `Display` of an unsigned integer, with and without a zero-padded width.
use Prim.Native.Nat.{ℕ, zero, suc, ◌+◌, ◌-◌, ◌/◌, ◌%◌}
use mathlib.Core.List.{[], ◌∷◌, ◌++◌}
use mathlib.Core.Bool.{true, false}
use whirl.Prelude.Tests.{ltb}
use whirl.Prelude.Lists.{length, replicate}
use whirl.Prelude.Bytes.{Text}

-- The digits of `n` before those in `out`; a number has fewer digits than its value plus one.
unfoldable pub emit : ℕ → ℕ → Text → Text
emit zero n out = out
emit (suc fuel) n out = elim (ltb n 10) [
  | true ↦ (b'0' + n) ∷ out
  | false ↦ emit fuel (n / 10) ((b'0' + n % 10) ∷ out)
]

unfoldable pub decimal : ℕ → Text
unfolding emit
decimal n = emit (suc n) n []

-- `{n:0width$}`.
unfoldable pub decimal_padded : ℕ → ℕ → Text
unfolding decimal
decimal_padded width n = replicate (width - length (decimal n)) b'0' ++ decimal n
