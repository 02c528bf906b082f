-- ===== src/Timestamp/Calendar.antt =====
-- `days_in_month`, and that a number of days is the date of a day that its month has.
use whirl.Prelude.{
  ℕ, ◌+◌, ◌-◌, ◌*◌, ◌/◌, ◌%◌, ◌≤◌, ◌<◌, ◌≡◌, ◌∙◌, refl, ap, Bool, true, false, not, ◌&&◌, ◌||◌, leb,
  ◌==◌, if◌then◌else◌, arith,
}
use whirl.Prelude.Int.{ℤ, pos, negsuc, ◌+ℤ◌}
use whirl.Timestamp.{div_euclid, rem_euclid, scale, Civil, civil_from_days}
use whirl.Timestamp.Date.{year_of, days_of, month_of, year_of-lt, days_of-past, rem_euclid-lt}

-- `year % k == 0`; the sign of the remainder does not matter to it.
abbrev pub is_multiple : ℤ → ℕ → Bool
is_multiple year k = rem_euclid year k == 0

abbrev pub is_leap : ℤ → Bool
is_leap year = is_multiple year 4 && (not (is_multiple year 100) || is_multiple year 400)

unfoldable pub days_in_month : ℤ → ℕ → ℕ
days_in_month year month =
    if (month == 1)
      || (month == 3)
      || (month == 5)
      || (month == 7)
      || (month == 8)
      || (month == 10)
      || (month == 12)
    then 31
    else if (month == 4) || (month == 6) || (month == 9) || (month == 11)
    then 30
    else if (month == 2) && is_leap year
    then 29
    else if month == 2
    then 28
    else 0

rem_euclid-shift :
    (r : ℕ) (e : ℤ)
    → r < 400
    → (rem_euclid (pos r +ℤ scale e 400 +ℤ pos 1) 4 ≡ (r + 1) % 4)
      × (rem_euclid (pos r +ℤ scale e 400 +ℤ pos 1) 100 ≡ (r + 1) % 100)
      × (rem_euclid (pos r +ℤ scale e 400 +ℤ pos 1) 400 ≡ (r + 1) % 400)
unfolding ◌+ℤ◌
rem_euclid-shift r (pos n) h = (ground arith, ground arith, ground arith)
rem_euclid-shift r (negsuc n) h = (ground arith, ground arith, ground arith)

-- The last day of a year of the shifted calendar is the 29th of February of a leap year.
leap_day : (doe : ℕ) → doe < 146_097 → doe - days_of doe ≡ 365 → ((year_of doe + 1) % 4 ≡ 0)
leap_day doe h last = omega arith

leap_century :
    (doe : ℕ)
    → doe < 146_097
    → doe - days_of doe ≡ 365
    → (year_of doe + 1) % 100 ≡ 0
    → (year_of doe + 1) % 400 ≡ 0
leap_century doe h last c = omega arith

is_leap-last :
    (doe : ℕ) (era : ℤ)
    → doe < 146_097
    → doe - days_of doe ≡ 365
    → is_leap (pos (year_of doe) +ℤ scale era 400 +ℤ pos 1) ≡ true
is_leap-last doe era h last =
    let (four, hundred, all) = rem_euclid-shift (year_of doe) era (year_of-lt doe h) in
    ground (arith, four, hundred, all, leap_day doe h last, leap_century doe h last)

abbrev day_of : ℕ → ℕ
day_of doy = doy - (153 * ((5 * doy + 2) / 153) + 2) / 5 + 1

day_of-le :
    (year : ℤ) (doy : ℕ)
    → doy ≤ 365
    → (doy ≡ 365 → is_leap year ≡ true)
    → day_of doy ≤ days_in_month year (month_of ((5 * doy + 2) / 153))
unfolding days_in_month
day_of-le year doy h leap = ground arith

abbrev pub IsDate : Civil → Type 0
IsDate date =
    (1 ≤ date.month)
    × (date.month ≤ 12)
    × (1 ≤ date.day)
    × (date.day ≤ days_in_month date.year date.month)

february : (doy : ℕ) → doy ≡ 365 → leb (month_of ((5 * doy + 2) / 153)) 2 ≡ true
february doy h = ground arith

pick_true : (b : Bool) (x y : ℤ) → b ≡ true → (if b then x else y) ≡ x
pick_true true x y h = refl
pick_true false x y h = cc

-- A number of days is the date of a day that its month has in that year, before the epoch and after it.
pub civil_from_days-IsDate : (days : ℤ) → IsDate (civil_from_days days)
unfolding civil_from_days
civil_from_days-IsDate days =
    let shifted = days +ℤ pos 719_468 in
    let doe = rem_euclid shifted 146_097 in
    let era = div_euclid shifted 146_097 in
    let doy = doe - days_of doe in
    let small = rem_euclid-lt shifted in
    let bound = days_of-past doe small in
    let year = pos (year_of doe) +ℤ scale era 400 in
    let month = month_of ((5 * doy + 2) / 153) in
    (
      ground arith,
      ground (arith, bound),
      omega arith,
      day_of-le (if leb month 2 then year +ℤ pos 1 else year) doy (omega (arith, bound)) λ last.
          ap is_leap (pick_true (leb month 2) (year +ℤ pos 1) year (february doy last))
          ∙ is_leap-last doe era small last,
    )
