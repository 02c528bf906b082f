-- ===== src/Json/Numbers.antt =====
-- `Parser::number`, and which literals `str::parse::<f64>` reads. The bytes of a number are ASCII, so
-- the test of UTF-8 passes.
use whirl.Prelude.{
  ℕ, suc, ◌+◌, [], ◌∷◌, Bool, true, false, not, ◌&&◌, ◌||◌, Text, ◌==◌, if◌then◌else◌,
}
use whirl.Json.{at, ok, err, Reader, not_a_number}
use whirl.Strings.Number.{is_decimal}

-- The digits in front, how many, and what is behind them.
unfoldable pub leading_digits : Text → ℕ × Text
leading_digits [] = (0, [])
leading_digits (c ∷ s) = elim (is_decimal c) [
  | true ↦ let (n, rest) = leading_digits s in (suc n, rest)
  | false ↦ (0, c ∷ s)
]

unfoldable pub without_sign : Text → Text
without_sign [] = []
without_sign (c ∷ s) = if (c == b'+') || (c == b'-') then s else c ∷ s

unfoldable pub is_only_digits : Text → Bool
unfolding leading_digits
is_only_digits s =
    let (n, rest) = leading_digits s in not (n == 0) && (elim rest [ [] ↦ true | c ∷ t ↦ false ])

unfoldable pub is_exponent : Text → Bool
unfolding without_sign is_only_digits
is_exponent [] = true
is_exponent (c ∷ s) = ((c == b'e') || (c == b'E')) && is_only_digits (without_sign s)

unfoldable pub is_fraction : ℕ → Text → Bool
unfolding leading_digits is_exponent
is_fraction whole [] = not (whole == 0)
is_fraction whole (c ∷ s) =
    if c == b'.'
    then (let (n, rest) = leading_digits s in not (whole + n == 0) && is_exponent rest)
    else not (whole == 0) && is_exponent (c ∷ s)

unfoldable pub is_float : Text → Bool
unfolding leading_digits without_sign is_fraction
is_float s = let (whole, rest) = leading_digits (without_sign s) in is_fraction whole rest

unfoldable pub is_number_byte : ℕ → Bool
unfolding is_decimal
is_number_byte c =
    is_decimal c || ((c == b'.') || (c == b'e') || (c == b'E') || (c == b'+') || (c == b'-'))

unfoldable pub number_bytes : Text → Text × Text
unfolding is_number_byte
number_bytes [] = ([], [])
number_bytes (c ∷ s) = elim (is_number_byte c) [
  | true ↦ let (more, rest) = number_bytes s in (c ∷ more, rest)
  | false ↦ ([], c ∷ s)
]

unfoldable pub number_text : Text → Text × Text
unfolding number_bytes
number_text [] = ([], [])
number_text (c ∷ s) =
    if c == b'-'
    then (let (more, rest) = number_bytes s in (c ∷ more, rest))
    else number_bytes (c ∷ s)

unfoldable pub number_literal : Reader Text
unfolding number_text is_float
number_literal (at s line) =
    let (text, rest) = number_text s in
    if is_float text then ok text (at rest line) else err line (not_a_number text) line
