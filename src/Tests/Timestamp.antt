-- ===== src/Tests/Timestamp.antt =====
-- The stamp that the source documents, and a leap day before the epoch.
use whirl.Prelude.{◌≡◌, refl, arith, some}
use whirl.Prelude.Int.{pos, negsuc}
use whirl.Timestamp.{civil_from_days, rfc3339_utc}
use whirl.Timestamp.Calendar.{IsDate, civil_from_days-IsDate}
use whirl.Timestamp.Parse.{parse_rfc3339_utc}
use whirl.Timestamp.Roundtrip.{parse_rfc3339_utc-rfc3339_utc}

year_of_stamp : (civil_from_days (pos 20_721)).year ≡ pos 2_026
unfolding civil_from_days
year_of_stamp = refl

parse_rfc3339_utc-rfc3339_utc_example :
    parse_rfc3339_utc (rfc3339_utc (pos 1_790_322_072)) ≡ some (pos 1_790_322_072)
parse_rfc3339_utc-rfc3339_utc_example =
    parse_rfc3339_utc-rfc3339_utc (pos 1_790_322_072) 2_026 year_of_stamp (omega arith)

leap_day_before : (civil_from_days (negsuc 671)).day ≡ 29
unfolding civil_from_days
leap_day_before = refl

civil_from_days-IsDate_example : IsDate (civil_from_days (negsuc 671))
civil_from_days-IsDate_example = civil_from_days-IsDate (negsuc 671)
