-- ===== src/Strings/Number.antt =====
-- `str::parse` of an unsigned integer, and what `Display` prints, read back.
use whirl.Prelude.{
  ℕ, zero, suc, ◌+◌, ◌-◌, ◌*◌, ◌/◌, ◌%◌, ◌≤◌, ◌<◌, ◌≡◌, refl, Bool, ◌&&◌, [], ◌∷◌, Option, none,
  some, Text, All, leb, ltb, ◌==◌, if◌then◌else◌, arith, Bool-cases, Lacks, ◌⊎◌, inl, inr,
}
use whirl.Prelude.Decimal.{emit, decimal}

unfoldable pub is_decimal : ℕ → Bool
is_decimal c = leb b'0' c && leb c b'9'

-- Digit by digit, refused as soon as the value passes `top`.
unfoldable pub read_digits : ℕ → ℕ → Text → Option ℕ
unfolding is_decimal
read_digits top acc [] = some acc
read_digits top acc (c ∷ s) =
    if is_decimal c && leb (acc * 10 + (c - b'0')) top
    then read_digits top (acc * 10 + (c - b'0')) s
    else none

-- An empty text and a lone sign are no number; a sign `+` may stand in front.
unfoldable pub read_unsigned : ℕ → Text → Option ℕ
unfolding read_digits
read_unsigned top [] = none
read_unsigned top (c ∷ []) = read_digits top 0 (c ∷ [])
read_unsigned top (c ∷ d ∷ s) = read_digits top 0 (if c == b'+' then d ∷ s else c ∷ d ∷ s)

abbrev pub u32_max : ℕ
u32_max = 4294967295

abbrev pub u64_max : ℕ
u64_max = 18446744073709551615

abbrev pub IsDecimal : ℕ → Type 0
IsDecimal c = (b'0' ≤ c) × (c ≤ b'9')

read_digits-emit :
    (top fuel n : ℕ) (out : Text)
    → n < fuel
    → n ≤ top
    → read_digits top 0 (emit fuel n out) ≡ read_digits top n out
unfolding read_digits emit
read_digits-emit top zero n out h k = absurd (omega arith)
read_digits-emit top (suc fuel) n out h k =
    ground (arith, read_digits-emit top fuel (n / 10) ((b'0' + n % 10) ∷ out))

pub emit-IsDecimal :
    (fuel n : ℕ) (out : Text) → n < fuel → All IsDecimal out → All IsDecimal (emit fuel n out)
unfolding emit
emit-IsDecimal zero n out h k = absurd (omega arith)
emit-IsDecimal (suc fuel) n out h k =
    ground (arith, emit-IsDecimal fuel (n / 10) ((b'0' + n % 10) ∷ out))

emit-eq-cons : (fuel n c : ℕ) (out : Text) → (d : ℕ) × (s : Text) × (emit fuel n (c ∷ out) ≡ d ∷ s)
unfolding emit
emit-eq-cons zero n c out = (c, out, refl)
emit-eq-cons (suc fuel) n c out = elim (Bool-cases (ltb n 10)) [
  | inl small ↦ (b'0' + n, c ∷ out, rw (small, emit))
  | inr large ↦
      let (d, s, e) = emit-eq-cons fuel (n / 10) (b'0' + n % 10) (c ∷ out) in
      (d, s, rw (large, emit) e)
]

read_unsigned_of-IsDecimal :
    (top c : ℕ) (s : Text) → IsDecimal c → read_unsigned top (c ∷ s) ≡ read_digits top 0 (c ∷ s)
unfolding read_unsigned
read_unsigned_of-IsDecimal top c [] h = refl
read_unsigned_of-IsDecimal top c (d ∷ s) h = ground arith

pub decimal-IsDecimal : (n : ℕ) → All IsDecimal (decimal n)
unfolding decimal
decimal-IsDecimal n = emit-IsDecimal (suc n) n [] (omega arith) tt

-- A printed number is never empty.
pub decimal-eq-cons : (n : ℕ) → (d : ℕ) × (s : Text) × (decimal n ≡ d ∷ s)
unfolding decimal emit
decimal-eq-cons n = elim (Bool-cases (ltb n 10)) [
  | inl small ↦ (b'0' + n, [], rw (small, emit))
  | inr large ↦
      let (d, s, e) = emit-eq-cons n (n / 10) (b'0' + n % 10) [] in (d, s, rw (large, emit) e)
]

read_digits-decimal : (top n : ℕ) → n ≤ top → read_digits top 0 (decimal n) ≡ some n
unfolding decimal read_digits
read_digits-decimal top n h = read_digits-emit top (suc n) n [] (omega arith) h

-- What `Display` prints is read back, at every bound that the number is within.
pub read_unsigned-decimal : (top n : ℕ) → n ≤ top → read_unsigned top (decimal n) ≡ some n
read_unsigned-decimal top n h =
    let (d, s, e) = decimal-eq-cons n in
    let digits : All IsDecimal (d ∷ s) = rw e at (decimal-IsDecimal n) in
    cc (e, read_unsigned_of-IsDecimal top d s digits.0, read_digits-decimal top n h)

read_digits-le :
    (top acc : ℕ) (s : Text) (n : ℕ) → acc ≤ top → read_digits top acc s ≡ some n → n ≤ top
unfolding read_digits
read_digits-le top acc [] n k h = ground arith
read_digits-le top acc (c ∷ s) n k h =
    ground (arith, read_digits-le top (acc * 10 + (c - b'0')) s n)

-- A number that is read is within the bound.
pub read_unsigned-le : (top : ℕ) (s : Text) (n : ℕ) → read_unsigned top s ≡ some n → n ≤ top
unfolding read_unsigned
read_unsigned-le top [] n h = cc
read_unsigned-le top (c ∷ []) n h = read_digits-le top 0 (c ∷ []) n (omega arith) h
read_unsigned-le top (c ∷ d ∷ s) n h =
    read_digits-le top 0 (if c == b'+' then d ∷ s else c ∷ d ∷ s) n (omega arith) h

-- No digit is a byte outside `0` to `9`.
pub IsDecimal-Lacks : (b : ℕ) (s : Text) → ((b < b'0') ⊎ (b'9' < b)) → All IsDecimal s → Lacks b s
IsDecimal-Lacks b [] o h = tt
IsDecimal-Lacks b (c ∷ s) o h = (ground arith, IsDecimal-Lacks b s o h.1)
