-- ===== src/Timestamp.antt =====
-- `rfc3339_utc` of crates/whirl-core/src/protocol.rs and its calendar arithmetic; the children have the
-- inverse and the parser.
pub mod Date
pub mod Calendar
pub mod Parse
pub mod Digits
pub mod Roundtrip
use whirl.Prelude.{
  ℕ, suc, ◌+◌, ◌-◌, ◌*◌, ◌/◌, ◌%◌, ◌≡◌, refl, [], ◌∷◌, ◌++◌, Text, codes, ltb, leb, if◌then◌else◌,
}
use whirl.Prelude.Int.{ℤ, pos, negsuc, ◌+ℤ◌}
use whirl.Prelude.Decimal.{decimal_padded}

-- `i64::div_euclid` and `i64::rem_euclid` by a positive number.
abbrev pub div_euclid : ℤ → ℕ → ℤ
div_euclid (pos n) k = pos (n / k)
div_euclid (negsuc n) k = negsuc (n / k)

abbrev pub rem_euclid : ℤ → ℕ → ℕ
rem_euclid (pos n) k = n % k
rem_euclid (negsuc n) k = k - 1 - n % k

abbrev pub scale : ℤ → ℕ → ℤ
scale (pos n) k = pos (n * k)
scale (negsuc n) k = negsuc (suc n * k - 1)

pub record Civil : Type 0 where
  pub year : ℤ
  pub month : ℕ
  pub day : ℕ

unfoldable pub civil_from_days : ℤ → Civil
unfolding ◌+ℤ◌
civil_from_days days =
    let shifted = days +ℤ pos 719_468 in
    let era = div_euclid shifted 146_097 in
    let day_of_era = rem_euclid shifted 146_097 in
    let year_of_era =
      (day_of_era - day_of_era / 1_460 + day_of_era / 36_524 - day_of_era / 146_096) / 365 in
    let year = pos year_of_era +ℤ scale era 400 in
    let day_of_year = day_of_era - (365 * year_of_era + year_of_era / 4 - year_of_era / 100) in
    let month_prime = (5 * day_of_year + 2) / 153 in
    let month = if ltb month_prime 10 then month_prime + 3 else month_prime - 9 in
    record {
      year = if leb month 2 then year +ℤ pos 1 else year;
      month = month;
      day = day_of_year - (153 * month_prime + 2) / 5 + 1;
    }

-- `{year:04}`: the sign counts towards the width.
padded_year : ℤ → Text
padded_year (pos n) = decimal_padded 4 n
padded_year (negsuc n) = b'-' ∷ decimal_padded 3 (suc n)

unfoldable pub rfc3339_utc : ℤ → Text
unfolding civil_from_days padded_year decimal_padded
rfc3339_utc seconds_since_epoch =
    let date = civil_from_days (div_euclid seconds_since_epoch 86_400) in
    let seconds = rem_euclid seconds_since_epoch 86_400 in
    padded_year date.year
    ++ (b'-' ∷ decimal_padded 2 date.month
        ++ (b'-' ∷ decimal_padded 2 date.day
            ++ (b'T' ∷ decimal_padded 2 (seconds / 3_600)
                ++ (b':' ∷ decimal_padded 2 (seconds % 3_600 / 60)
                    ++ (b':' ∷ decimal_padded 2 (seconds % 60) ++ b'Z' ∷ [])))))

documented_stamp : rfc3339_utc (pos 1_790_322_072) ≡ codes "2026-09-25T07:41:12Z"
unfolding rfc3339_utc
documented_stamp = refl
