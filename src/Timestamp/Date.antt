-- ===== src/Timestamp/Date.antt =====
-- `days_from_civil`, and that it takes the date of a number of days back to that number.
use whirl.Prelude.{
  ℕ, ◌+◌, ◌-◌, ◌*◌, ◌/◌, ◌≤◌, ◌<◌, ◌≡◌, ◌∙◌, refl, ap, sym, Bool, true, false, ltb, leb,
  if◌then◌else◌, arith,
}
use whirl.Prelude.Int.{ℤ, pos, negsuc, ◌+ℤ◌, ◌-ℤ◌, +ℤ_parts, -ℤ_parts, eq_of_parts}
use whirl.Timestamp.{div_euclid, rem_euclid, scale, civil_from_days}

-- `year - era * 400` is the remainder, by `minus-scale` below.
unfoldable pub days_from_civil : ℤ → ℕ → ℕ → ℤ
unfolding ◌+ℤ◌ ◌-ℤ◌
days_from_civil year month day =
    let year = if leb month 2 then year -ℤ pos 1 else year in
    let era = div_euclid year 400 in
    let year_of_era = rem_euclid year 400 in
    let month_prime = if ltb 2 month then month - 3 else month + 9 in
    let day_of_year = pos ((153 * month_prime + 2) / 5 + day) -ℤ pos 1 in
    let day_of_era = pos (year_of_era * 365 + year_of_era / 4 - year_of_era / 100) +ℤ day_of_year in
    scale era 146_097 +ℤ day_of_era -ℤ pos 719_468

minus-scale : (n : ℤ) → n -ℤ scale (div_euclid n 400) 400 ≡ pos (rem_euclid n 400)
unfolding ◌-ℤ◌
minus-scale (pos n) = ground arith
minus-scale (negsuc n) = ground arith

div_euclid-plus : (r : ℕ) (e : ℤ) → r < 400 → div_euclid (pos r +ℤ scale e 400) 400 ≡ e
unfolding ◌+ℤ◌
div_euclid-plus r (pos n) h = ground arith
div_euclid-plus r (negsuc n) h = ground arith

rem_euclid-plus : (r : ℕ) (e : ℤ) → r < 400 → rem_euclid (pos r +ℤ scale e 400) 400 ≡ r
unfolding ◌+ℤ◌
rem_euclid-plus r (pos n) h = ground arith
rem_euclid-plus r (negsuc n) h = ground arith

scale-rem : (n : ℤ) → scale (div_euclid n 146_097) 146_097 +ℤ pos (rem_euclid n 146_097) ≡ n
unfolding ◌+ℤ◌
scale-rem (pos n) = ground arith
scale-rem (negsuc n) = ground arith

-- The date of a day `doe` of an era, as the shifted calendar has it.
module _ (doe : ℕ) where
  abbrev pub year_of : ℕ
  year_of = (doe - doe / 1_460 + doe / 36_524 - doe / 146_096) / 365

  abbrev pub days_of : ℕ
  days_of = 365 * year_of + year_of / 4 - year_of / 100

  pub year_of-lt : doe < 146_097 → year_of < 400
  year_of-lt h = omega arith

  pub days_of-le : doe < 146_097 → days_of ≤ doe
  days_of-le h = omega arith

  pub days_of-past : doe < 146_097 → doe ≤ days_of + 365
  days_of-past h = omega arith

abbrev pub month_of : ℕ → ℕ
month_of mp = if ltb mp 10 then mp + 3 else mp - 9

month_back :
    (mp : ℕ) → mp < 12 → (if ltb 2 (month_of mp) then month_of mp - 3 else month_of mp + 9) ≡ mp
month_back mp h = ground arith

year_back :
    (b : Bool) (y : ℤ)
    → (if b then (if b then y +ℤ pos 1 else y) -ℤ pos 1 else (if b then y +ℤ pos 1 else y)) ≡ y
year_back true y =
    eq_of_parts _ _ (omega (arith, +ℤ_parts y (pos 1), -ℤ_parts (y +ℤ pos 1) (pos 1)))
year_back false y = refl

day_sum :
    (doy : ℕ)
    → (153 * ((5 * doy + 2) / 153) + 2) / 5 + (doy - (153 * ((5 * doy + 2) / 153) + 2) / 5 + 1)
      ≡ doy + 1
day_sum doy = omega arith

abbrev on_day : ℤ → ℕ → ℕ → ℤ
on_day era yoe doy =
    scale era 146_097
    +ℤ (pos (yoe * 365 + yoe / 4 - yoe / 100) +ℤ (pos doy -ℤ pos 1))
    -ℤ pos 719_468

days_from_civil-on_day :
    (era : ℤ) (yoe mp day : ℕ)
    → yoe < 400
    → mp < 12
    → let year = pos yoe +ℤ scale era 400 in
      let month = month_of mp in
      days_from_civil (if leb month 2 then year +ℤ pos 1 else year) month day
      ≡ on_day era yoe ((153 * mp + 2) / 5 + day)
unfolding days_from_civil
days_from_civil-on_day era yoe mp day hy hm =
    let year = pos yoe +ℤ scale era 400 in
    ap
      (λ y.
        on_day (div_euclid y 400) (rem_euclid y 400) (
          (153 * (if ltb 2 (month_of mp) then month_of mp - 3 else month_of mp + 9) + 2) / 5 + day))
      (year_back (leb (month_of mp) 2) year)
    ∙ ap (λ m. on_day (div_euclid year 400) (rem_euclid year 400) ((153 * m + 2) / 5 + day))
        (month_back mp hm)
    ∙ ap (λ e. on_day e (rem_euclid year 400) ((153 * mp + 2) / 5 + day))
        (div_euclid-plus yoe era hy)
    ∙ ap (λ r. on_day era r ((153 * mp + 2) / 5 + day)) (rem_euclid-plus yoe era hy)

pub rem_euclid-lt : (n : ℤ) → rem_euclid n 146_097 < 146_097
rem_euclid-lt (pos n) = omega arith
rem_euclid-lt (negsuc n) = omega arith

plus_day : (a doy : ℕ) → pos a +ℤ (pos (doy + 1) -ℤ pos 1) ≡ pos (a + doy)
unfolding ◌+ℤ◌ ◌-ℤ◌
plus_day a doy = ground arith

days_of_rest :
    (doe : ℕ)
    → doe < 146_097
    → year_of doe * 365 + year_of doe / 4 - year_of doe / 100 + (doe - days_of doe) ≡ doe
days_of_rest doe h = omega (arith, days_of-le doe h)

plus-minus : (n : ℤ) (k : ℕ) → n +ℤ pos k -ℤ pos k ≡ n
plus-minus n k = eq_of_parts _ _ (omega (arith, +ℤ_parts n (pos k), -ℤ_parts (n +ℤ pos k) (pos k)))

on_day-rem :
    (s : ℤ) (doe : ℕ)
    → rem_euclid s 146_097 ≡ doe
    → doe < 146_097
    → on_day (div_euclid s 146_097) (year_of doe) (doe - days_of doe + 1) ≡ s -ℤ pos 719_468
on_day-rem s doe e h =
    let era = div_euclid s 146_097 in
    ap (λ day. scale era 146_097 +ℤ day -ℤ pos 719_468) (plus_day _ (doe - days_of doe))
    ∙ ap (λ n. scale era 146_097 +ℤ pos n -ℤ pos 719_468) (days_of_rest doe h ∙ sym e)
    ∙ ap (λ n. n -ℤ pos 719_468) (scale-rem s)

-- The date of a number of days is taken back to that number of days, before the epoch and after it.
pub days_from_civil-civil_from_days :
    (days : ℤ)
    → days_from_civil
        (civil_from_days days).year
        (civil_from_days days).month
        (civil_from_days days).day
      ≡ days
unfolding civil_from_days
days_from_civil-civil_from_days days =
    let s = days +ℤ pos 719_468 in
    let doe = rem_euclid s 146_097 in
    let doy = doe - days_of doe in
    let small = rem_euclid-lt s in
    days_from_civil-on_day (div_euclid s 146_097) (year_of doe) ((5 * doy + 2) / 153)
      (doy - (153 * ((5 * doy + 2) / 153) + 2) / 5 + 1) (year_of-lt doe small)
      (omega (arith, days_of-past doe small))
    ∙ ap (on_day (div_euclid s 146_097) (year_of doe)) (day_sum doy)
    ∙ on_day-rem s doe refl small
    ∙ plus-minus days 719_468
