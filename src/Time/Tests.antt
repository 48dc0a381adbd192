-- ===== src/Time/Tests.antt =====
-- Timestamps rendered and read back.
use brasa.Prelude.{◌≡◌, refl, codes, digits, decimal}
use brasa.Prelude.Int.{pos, negsuc, div_euclid, rem_euclid, ◌+ℤ◌, ◌-ℤ◌, ◌*ℤ◌}
use brasa.Int64.{tdiv, tmod, checked, checked_add, checked_sub, checked_mul}
use brasa.Time.{
  ok, err, iso_utc, civil_from_days, floor_by, padded, civil_days, days_of, days_in_month, is_leap,
  time_of_day_millis, reject,
}
use brasa.Prelude.{arith}
use brasa.Prelude.Int.{◌≤ℤ◌, +ℤ_parts}
use brasa.Int64.{min_i64}
use brasa.Time.RoundTrip.{first_day, parse_iso-iso_utc, parse_iso-iso_utc_before}
use brasa.Time.Scan.{
  parse_iso, year, literal, fixed, date_time_separator, fraction_millis, offset_minutes, end,
  instant, leading_digits, year_value, peek,
}

run_iso_utc : iso_utc (pos 951782400000) ≡ codes "2000-02-29T00:00:00.000Z"
unfolding iso_utc civil_from_days floor_by padded div_euclid rem_euclid ◌+ℤ◌ ◌-ℤ◌ ◌*ℤ◌ tdiv tmod
    decimal digits
run_iso_utc = refl

run_before_epoch : iso_utc (negsuc 0) ≡ codes "1969-12-31T23:59:59.999Z"
unfolding iso_utc civil_from_days floor_by padded div_euclid rem_euclid ◌+ℤ◌ ◌-ℤ◌ ◌*ℤ◌ tdiv tmod
    decimal digits
run_before_epoch = refl

run_parse_iso : parse_iso (codes "2023-11-14t22:13:20.1239+01:30") ≡ ok (pos 1699994600123)
unfolding parse_iso year literal fixed date_time_separator fraction_millis offset_minutes end
    instant leading_digits year_value peek civil_days days_of days_in_month is_leap floor_by
    time_of_day_millis ◌+ℤ◌ ◌-ℤ◌ ◌*ℤ◌ tdiv tmod checked checked_add checked_sub checked_mul
run_parse_iso = refl

run_no_day :
    parse_iso (codes "2023-02-29T00:00:00Z")
    ≡ err (
        reject
          (codes "2023-02-29T00:00:00Z")
          (codes "day 29 does not exist in month 2 of year 2023"))
unfolding parse_iso year literal fixed date_time_separator fraction_millis offset_minutes end
    instant leading_digits year_value peek civil_days days_of days_in_month is_leap floor_by
    time_of_day_millis ◌+ℤ◌ ◌-ℤ◌ ◌*ℤ◌ tdiv tmod checked checked_add checked_sub checked_mul reject
    decimal digits
run_no_day = refl

parse_iso-iso_utc_example : parse_iso (iso_utc (negsuc 62135596800000)) ≡ ok (negsuc 62135596800000)
parse_iso-iso_utc_example =
    parse_iso-iso_utc (negsuc 62135596800000) (omega arith, omega arith) (omega arith)

-- The smallest int.
parse_iso-iso_utc_before_example :
    parse_iso (iso_utc min_i64)
    ≡ err (reject (iso_utc min_i64) (codes "the instant is too far from the epoch to represent"))
parse_iso-iso_utc_before_example =
    parse_iso-iso_utc_before min_i64 (omega arith, omega arith) before
  where
    before : min_i64 +ℤ pos 1 ≤ℤ first_day
    before = omega (arith, +ℤ_parts min_i64 (pos 1))
