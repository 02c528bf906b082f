-- ===== src/Timestamp/Roundtrip.antt =====
-- What `rfc3339_utc` writes is read back.
use whirl.Prelude.{
  ℕ, ◌*◌, ◌/◌, ◌%◌, ◌≤◌, ◌<◌, ◌≡◌, ◌∙◌, refl, ap, sym, subst, [], ◌∷◌, ◌++◌, Text, some, false, not,
  ◌&&◌, ◌||◌, leb, ltb, arith,
}
use whirl.Prelude.Decimal.{decimal_padded}
use whirl.Prelude.Int.{ℤ, pos, negsuc, ◌+ℤ◌}
use whirl.Timestamp.{civil_from_days, div_euclid, rem_euclid, scale, padded_year, rfc3339_utc}
use whirl.Timestamp.Date.{days_from_civil, days_from_civil-civil_from_days}
use whirl.Timestamp.Calendar.{days_in_month, civil_from_days-IsDate}
use whirl.Timestamp.Parse.{byte_is, seconds_of, read_fields, parse_rfc3339_utc}
use whirl.Timestamp.Digits.{two, four, two_digits, four_digits, number-two, number-four}

-- The text of a stamp with a year of four digits.
abbrev stamp : Text → Text → Text → Text → Text → Text → Text
stamp year month day hour minute second =
    year
    ++ (b'-' ∷ month
        ++ (b'-' ∷ day ++ (b'T' ∷ hour ++ (b':' ∷ minute ++ (b':' ∷ second ++ b'Z' ∷ [])))))

stamp-digits :
    (y m d h i s : ℕ)
    → y < 10_000
    → m < 100
    → d < 100
    → h < 100
    → i < 100
    → s < 100
    → stamp
        (decimal_padded 4 y)
        (decimal_padded 2 m)
        (decimal_padded 2 d)
        (decimal_padded 2 h)
        (decimal_padded 2 i)
        (decimal_padded 2 s)
      ≡ stamp (four y) (two m) (two d) (two h) (two i) (two s)
stamp-digits y m d h i s hy hm hd hh hi hs =
    rw
      (
        four_digits y hy,
        two_digits m hm,
        two_digits d hd,
        two_digits h hh,
        two_digits i hi,
        two_digits s hs,
      )
      refl

parse-stamp :
    (y m d h i s : ℕ)
    → y < 10_000
    → m < 100
    → d < 100
    → h < 100
    → i < 100
    → s < 100
    → parse_rfc3339_utc (stamp (four y) (two m) (two d) (two h) (two i) (two s))
      ≡ seconds_of y m d h i s
unfolding parse_rfc3339_utc byte_is read_fields
parse-stamp y m d h i s hy hm hd hh hi hs =
    rw
      (
        number-four y hy,
        number-two m hm,
        number-two d hd,
        number-two h hh,
        number-two i hi,
        number-two s hs,
      )
      refl

fields_allowed :
    (m i s : ℕ)
    → 1 ≤ m
    → m ≤ 12
    → i < 60
    → s < 60
    → (not (leb 1 m && leb m 12) || (not (leb i 59) || not (leb s 60))) ≡ false
fields_allowed m i s m1 m12 hi hs = ground arith

day_allowed :
    (h d top : ℕ) → h < 24 → 1 ≤ d → d ≤ top → (ltb 23 h || (ltb d 1 || ltb top d)) ≡ false
day_allowed h d top hh d1 dm = ground arith

seconds_of-some :
    (y m d h i s : ℕ)
    → 1 ≤ m
    → m ≤ 12
    → 1 ≤ d
    → d ≤ days_in_month (pos y) m
    → h < 24
    → i < 60
    → s < 60
    → seconds_of y m d h i s
      ≡ some
          (scale (days_from_civil (pos y) m d) 86_400 +ℤ pos (h * 3_600) +ℤ pos (i * 60) +ℤ pos s)
unfolding seconds_of
seconds_of-some y m d h i s m1 m12 d1 dm hh hi hs =
    rw
      (
        fields_allowed m i s m1 m12 hi hs,
        day_allowed h d (days_in_month (pos y) m) hh d1 dm,
        seconds_of,
      )
      refl

time_of_day :
    (seconds : ℤ)
    → let left = rem_euclid seconds 86_400 in
      scale (div_euclid seconds 86_400) 86_400
        +ℤ pos (left / 3_600 * 3_600)
        +ℤ pos (left % 3_600 / 60 * 60)
        +ℤ pos (left % 60)
      ≡ seconds
unfolding ◌+ℤ◌
time_of_day (pos n) = ground arith
time_of_day (negsuc n) = ground arith

left-lt : (seconds : ℤ) → rem_euclid seconds 86_400 < 86_400
left-lt (pos n) = omega arith
left-lt (negsuc n) = omega arith

days_in_month-le : (year : ℤ) (month : ℕ) → days_in_month year month ≤ 31
unfolding days_in_month
days_in_month-le year month = ground arith

-- What `rfc3339_utc` writes of a time in the years 0 to 9999 is read back as that time.
pub parse_rfc3339_utc-rfc3339_utc :
    (seconds : ℤ) (y : ℕ)
    → (civil_from_days (div_euclid seconds 86_400)).year ≡ pos y
    → y < 10_000
    → parse_rfc3339_utc (rfc3339_utc seconds) ≡ some seconds
unfolding rfc3339_utc padded_year
parse_rfc3339_utc-rfc3339_utc seconds y hy small =
    let days = div_euclid seconds 86_400 in
    let date = civil_from_days days in
    let left = rem_euclid seconds 86_400 in
    let bound = left-lt seconds in
    let (m1, m12, d1, dm) = civil_from_days-IsDate days in
    let short = days_in_month-le date.year date.month in
    let month_end = subst (λ year. date.day ≤ days_in_month year date.month) hy dm in
    let back =
      ap (λ year. days_from_civil year date.month date.day) (sym hy)
      ∙ days_from_civil-civil_from_days days in
    let hour = left / 3_600 in
    let minute = left % 3_600 / 60 in
    let second = left % 60 in
    ap
      (λ year. parse_rfc3339_utc (
        stamp (padded_year year) (decimal_padded 2 date.month) (decimal_padded 2 date.day)
          (decimal_padded 2 hour) (decimal_padded 2 minute) (decimal_padded 2 second)))
      hy
    ∙ ap parse_rfc3339_utc (
        stamp-digits y date.month date.day hour minute second small (omega (arith, m12))
          (omega (arith, dm, short)) (omega (arith, bound)) (omega arith) (omega arith))
    ∙ parse-stamp y date.month date.day hour minute second small (omega (arith, m12))
        (omega (arith, dm, short)) (omega (arith, bound)) (omega arith) (omega arith)
    ∙ seconds_of-some y date.month date.day hour minute second m1 m12 d1 month_end
        (omega (arith, bound)) (omega arith) (omega arith)
    ∙ ap (λ n. some (scale n 86_400 +ℤ pos (hour * 3_600) +ℤ pos (minute * 60) +ℤ pos second)) back
    ∙ ap (λ n. some n) (time_of_day seconds)
