-- ===== src/Json/Numerals.antt =====
-- A literal that is a number is read back where no byte of a number follows it.
use whirl.Prelude.{
  ℕ, suc, ◌≡◌, ◌∙◌, refl, ap, sym, subst, [], ◌∷◌, ◌++◌, Bool, true, false, not, ◌||◌, Text, length,
  ◌==◌, All, if◌then◌else◌, Bool-cases, inl, inr, arith,
}
use whirl.Prelude.Decimal.{decimal}
use whirl.Strings.Number.{is_decimal, IsDecimal, decimal-IsDecimal, decimal-eq-cons}
use whirl.Json.{at, Parsed, ok, err, not_a_number}
use whirl.Json.Numbers.{
  leading_digits, without_sign, is_fraction, is_float, is_number_byte, number_bytes, number_text,
  number_literal,
}

abbrev pub Stops : Text → Type 0
Stops [] = Unit
Stops (c ∷ s) = is_number_byte c ≡ false

abbrev pub IsNumberByte : ℕ → Type 0
IsNumberByte c = is_number_byte c ≡ true

-- A sign or a digit, and then bytes of a number, that are together a number.
abbrev pub IsNumeral : Text → Type 0
IsNumeral [] = 0 ≡ suc 0
IsNumeral (c ∷ s) =
    (((c == b'-') || is_decimal c) ≡ true) × All IsNumberByte (c ∷ s) × (is_float (c ∷ s) ≡ true)

number_bytes-append :
    (s rest : Text) → All IsNumberByte s → Stops rest → number_bytes (s ++ rest) ≡ (s, rest)
unfolding number_bytes
number_bytes-append [] [] h stop = refl
number_bytes-append [] (c ∷ rest) h stop = rw (stop, number_bytes) refl
number_bytes-append (c ∷ s) rest h stop =
    rw (h.0, number_bytes) (ap (λ r. (c ∷ r.0, r.1)) (number_bytes-append s rest h.1 stop))

number_text-append :
    (c : ℕ) (s rest : Text)
    → All IsNumberByte (c ∷ s)
    → Stops rest
    → number_text (c ∷ s ++ rest) ≡ (c ∷ s, rest)
unfolding number_text
number_text-append c s rest h stop = elim (Bool-cases (c == b'-')) [
  | inl e ↦ rw e (ap (λ r. (c ∷ r.0, r.1)) (number_bytes-append s rest h.1 stop))
  | inr e ↦ rw e (number_bytes-append (c ∷ s) rest h stop)
]

taken : Text × Text → ℕ → Parsed Text
taken r line = if is_float r.0 then ok r.0 (at r.1 line) else err line (not_a_number r.0) line

pub number_literal-append :
    (c : ℕ) (s rest : Text) (line : ℕ)
    → IsNumeral (c ∷ s)
    → Stops rest
    → number_literal (at (c ∷ s ++ rest) line) ≡ ok (c ∷ s) (at rest line)
unfolding number_literal taken
number_literal-append c s rest line (start, bytes, float) stop =
    ap (λ r. taken r line) (number_text-append c s rest bytes stop) ∙ rw float refl

decimal-number_bytes : (s : Text) → All IsDecimal s → All IsNumberByte s
unfolding is_number_byte is_decimal
decimal-number_bytes [] h = tt
decimal-number_bytes (c ∷ s) h = (ground (arith, h.0.0, h.0.1), decimal-number_bytes s h.1)

is_decimal_of : (c : ℕ) → IsDecimal c → is_decimal c ≡ true
unfolding is_decimal
is_decimal_of c h = ground (arith, h.0, h.1)

leading_digits-decimal : (s : Text) → All IsDecimal s → leading_digits s ≡ (length s, [])
unfolding leading_digits
leading_digits-decimal [] h = refl
leading_digits-decimal (c ∷ s) h =
    rw (is_decimal_of c h.0, leading_digits)
      (ap (λ r. (suc r.0, r.1)) (leading_digits-decimal s h.1))

unsigned : (c : ℕ) (s : Text) → IsDecimal c → without_sign (c ∷ s) ≡ c ∷ s
unfolding without_sign
unsigned c s h = ground (arith, h.0, h.1)

fraction_of : ℕ × Text → Bool
fraction_of r = is_fraction r.0 r.1

more_than_none : (n : ℕ) → not (suc n == 0) ≡ true
more_than_none n = ground arith

starts : (c : ℕ) → is_decimal c ≡ true → ((c == b'-') || is_decimal c) ≡ true
starts c h = ground arith

float-decimal : (c : ℕ) (s : Text) → All IsDecimal (c ∷ s) → is_float (c ∷ s) ≡ true
unfolding is_float is_fraction fraction_of
float-decimal c s h =
    ap (λ t. fraction_of (leading_digits t)) (unsigned c s h.0)
    ∙ ap fraction_of (leading_digits-decimal (c ∷ s) h)
    ∙ more_than_none (length s)

-- What is displayed of a natural number is a number.
pub decimal-IsNumeral : (n : ℕ) → IsNumeral (decimal n)
decimal-IsNumeral n =
    let (c, s, e) = decimal-eq-cons n in
    let all : All IsDecimal (c ∷ s) = rw e at (decimal-IsDecimal n) in
    subst IsNumeral (sym e)
      (starts c (is_decimal_of c all.0), decimal-number_bytes (c ∷ s) all, float-decimal c s all)
