-- ===== src/Timestamp/Parse.antt =====
-- `parse_rfc3339_utc`. A text that is not cut at a character is refused by the test of its digits here.
use whirl.Prelude.{
  ℕ, ◌*◌, ◌==◌, Bool, false, not, ◌&&◌, ◌||◌, Option, none, some, Text, all, ltb, leb, length, take,
  drop, get_elem?, if◌then◌else◌,
}
use whirl.Prelude.Int.{ℤ, pos, ◌+ℤ◌}
use whirl.Strings.Number.{is_decimal, read_unsigned}
use whirl.Timestamp.{scale}
use whirl.Timestamp.Date.{days_from_civil}
use whirl.Timestamp.Calendar.{days_in_month}

infixl 5 ◌>>=◌
abbrev ◌>>=◌ {ℓ κ} : {A : Type ℓ} {B : Type κ} → Option A → (A → Option B) → Option B
none >>= f = none
some a >>= f = f a

abbrev pub i64_max : ℕ
i64_max = 9_223_372_036_854_775_807

unfoldable pub byte_is : Text → ℕ → ℕ → Bool
byte_is text i c = elim (get_elem? text i) [ none ↦ false | some b ↦ b == c ]

unfoldable pub number : Text → Option ℕ
unfolding is_decimal read_unsigned
number slice = if all is_decimal slice then read_unsigned i64_max slice else none

abbrev pub digits : Text → ℕ → ℕ → Option ℕ
digits text from n = number (take n (drop from text))

unfoldable pub seconds_of : ℕ → ℕ → ℕ → ℕ → ℕ → ℕ → Option ℤ
unfolding ◌+ℤ◌ days_from_civil days_in_month
seconds_of year month day hour minute second =
    if not (leb 1 month && leb month 12) || (not (leb minute 59) || not (leb second 60))
    then none
    else if ltb 23 hour || (ltb day 1 || ltb (days_in_month (pos year) month) day)
    then none
    else some (
        scale (days_from_civil (pos year) month day) 86_400
        +ℤ pos (hour * 3_600)
        +ℤ pos (minute * 60)
        +ℤ pos second)

unfoldable pub read_fields : Text → Option ℤ
unfolding number seconds_of
read_fields text = do
  year ← digits text 0 4
  month ← digits text 5 2
  day ← digits text 8 2
  hour ← digits text 11 2
  minute ← digits text 14 2
  second ← digits text 17 2
  seconds_of year month day hour minute second

unfoldable pub parse_rfc3339_utc : Text → Option ℤ
unfolding byte_is read_fields
parse_rfc3339_utc text =
    if not (length text == 20)
    then none
    else if not (byte_is text 4 b'-')
        || (not (byte_is text 7 b'-') || (not (byte_is text 10 b'T') || not (byte_is text 19 b'Z')))
    then none
    else if not (byte_is text 13 b':') || not (byte_is text 16 b':')
    then none
    else read_fields text
