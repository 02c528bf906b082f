-- ===== src/Timestamp/Digits.antt =====
-- Two and four digits, written with leading zeros and read.
use whirl.Prelude.{
  ℕ, zero, suc, ◌+◌, ◌-◌, ◌/◌, ◌%◌, ◌≤◌, ◌<◌, ◌≡◌, ◌∙◌, ap, sym, length, replicate, ◌⊎◌, [], ◌∷◌,
  ◌++◌, Text, some, arith, inl, inr,
}
use whirl.Prelude.Decimal.{emit, decimal, decimal_padded}
use whirl.Strings.Number.{is_decimal, read_unsigned, read_digits}
use whirl.Timestamp.Parse.{number}

emit_last : (fuel n : ℕ) (out : Text) → 0 < fuel → n < 10 → emit fuel n out ≡ (b'0' + n) ∷ out
unfolding emit
emit_last zero n out h small = absurd (omega arith)
emit_last (suc fuel) n out h small = ground arith

emit_step :
    (fuel n : ℕ) (out : Text)
    → 0 < fuel
    → 10 ≤ n
    → emit fuel n out ≡ emit (fuel - 1) (n / 10) ((b'0' + n % 10) ∷ out)
unfolding emit
emit_step zero n out h large = absurd (omega arith)
emit_step (suc fuel) n out h large = ground arith

le_or_lt : (a b : ℕ) → (a ≤ b) ⊎ (b < a)
le_or_lt a b = omega arith

-- The digits of `n` in front of `out`, by how many there are.
emit_one :
    (n : ℕ) (out : Text) (fuel : ℕ) → 0 < fuel → n < 10 → emit fuel n out ≡ (b'0' + n % 10) ∷ out
emit_one n out fuel h small =
    emit_last fuel n out h small ∙ ap (λ d. (b'0' + d) ∷ out) (omega arith)

emit_two :
    (n : ℕ) (out : Text) (fuel : ℕ)
    → 1 < fuel
    → 10 ≤ n
    → n < 100
    → emit fuel n out ≡ (b'0' + n / 10 % 10) ∷ (b'0' + n % 10) ∷ out
emit_two n out fuel h low high =
    emit_step fuel n out (omega arith) low
    ∙ emit_one (n / 10) ((b'0' + n % 10) ∷ out) (fuel - 1) (omega arith) (omega arith)

emit_three :
    (n : ℕ) (out : Text) (fuel : ℕ)
    → 2 < fuel
    → 100 ≤ n
    → n < 1_000
    → emit fuel n out ≡ (b'0' + n / 10 / 10 % 10) ∷ (b'0' + n / 10 % 10) ∷ (b'0' + n % 10) ∷ out
emit_three n out fuel h low high =
    emit_step fuel n out (omega arith) (omega arith)
    ∙ emit_two (n / 10) ((b'0' + n % 10) ∷ out) (fuel - 1) (omega arith) (omega arith) (omega arith)

emit_four :
    (n : ℕ) (out : Text) (fuel : ℕ)
    → 3 < fuel
    → 1_000 ≤ n
    → n < 10_000
    → emit fuel n out
      ≡ (b'0' + n / 10 / 10 / 10 % 10)
        ∷ (b'0' + n / 10 / 10 % 10)
        ∷ (b'0' + n / 10 % 10)
        ∷ (b'0' + n % 10)
        ∷ out
emit_four n out fuel h low high =
    emit_step fuel n out (omega arith) (omega arith)
    ∙ emit_three (n / 10) ((b'0' + n % 10) ∷ out) (fuel - 1) (omega arith) (omega arith)
        (omega arith)

abbrev padded : ℕ → Text → Text
padded width d = replicate (width - length d) b'0' ++ d

abbrev pub two : ℕ → Text
two n = (b'0' + n / 10 % 10) ∷ (b'0' + n % 10) ∷ []

abbrev pub four : ℕ → Text
four n = (b'0' + n / 10 / 10 / 10 % 10) ∷ (b'0' + n / 10 / 10 % 10) ∷ two n

zeros_two : (n : ℕ) → n < 10 → two n ≡ b'0' ∷ (b'0' + n % 10) ∷ []
zeros_two n h = ground arith

pub two_digits : (n : ℕ) → n < 100 → decimal_padded 2 n ≡ two n
unfolding decimal_padded decimal
two_digits n h = elim (le_or_lt 10 n) [
  | inl low ↦ ap (padded 2) (emit_two n [] (suc n) (omega arith) low h)
  | inr small ↦ ap (padded 2) (emit_one n [] (suc n) (omega arith) small) ∙ sym (zeros_two n small)
]

abbrev last_three : ℕ → Text
last_three n = (b'0' + n / 10 / 10 % 10) ∷ two n

four-zero : (n : ℕ) → n < 1_000 → four n ≡ b'0' ∷ last_three n
four-zero n h = ground arith

last_three-zero : (n : ℕ) → n < 100 → b'0' ∷ last_three n ≡ b'0' ∷ b'0' ∷ two n
last_three-zero n h = ground arith

pub four_digits : (n : ℕ) → n < 10_000 → decimal_padded 4 n ≡ four n
unfolding decimal_padded decimal
four_digits n h = elim (le_or_lt 1_000 n) [
  | inl low ↦ ap (padded 4) (emit_four n [] (suc n) (omega arith) low h)
  | inr below ↦ elim (le_or_lt 100 n) [
    | inl low ↦
        ap (padded 4) (emit_three n [] (suc n) (omega arith) low below) ∙ sym (four-zero n below)
    | inr under ↦
        let zeros = sym (four-zero n below ∙ last_three-zero n under) in
        elim (le_or_lt 10 n) [
          | inl low ↦ ap (padded 4) (emit_two n [] (suc n) (omega arith) low under) ∙ zeros
          | inr small ↦
              ap (padded 4) (emit_one n [] (suc n) (omega arith) small)
              ∙ ap (λ d. b'0' ∷ b'0' ∷ d) (sym (zeros_two n small))
              ∙ zeros
        ]
  ]
]

pub number-two : (n : ℕ) → n < 100 → number (two n) ≡ some n
unfolding number is_decimal read_unsigned read_digits
number-two n h = ground arith

pub number-four : (n : ℕ) → n < 10_000 → number (four n) ≡ some n
unfolding number is_decimal read_unsigned read_digits
number-four n h = ground arith
