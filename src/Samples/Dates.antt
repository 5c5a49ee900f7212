-- ===== src/Samples/Dates.antt =====
-- Instances for dates.
use rthas.Prelude.{◌≡◌, refl, arith}
use rthas.Prelude.{pos, negsuc, ◌+ℤ◌, ◌-ℤ◌, times, quot, as_u64, i64, as_i32}
use rthas.Calendar.{
  year_of_era, days_before, month_part, month_of, day_of, era_of, day_of_era, date_in,
  civil_from_days,
}
use rthas.Calendar.Signed.{tomorrow, civil_from_days-next}

-- The last day of 1969.
civil_from_days-next_example :
    (civil_from_days (pos 0) ≡ (pos 1970, 1, 1))
    × (civil_from_days (negsuc 0 +ℤ pos 1) ≡ tomorrow (civil_from_days (negsuc 0)))
civil_from_days-next_example = civil_from_days-next (negsuc 0) (omega arith) (omega arith)

-- A leap day, the last day of 1969, and a day in front of the year 0.
dates_test :
    (civil_from_days (pos 11016) ≡ (pos 2000, 2, 29))
    × (civil_from_days (negsuc 0) ≡ (pos 1969, 12, 31))
    × (civil_from_days (negsuc 800000) ≡ (negsuc 220, 9, 3))
unfolding civil_from_days ◌+ℤ◌ ◌-ℤ◌ times quot as_u64 i64 as_i32 era_of day_of_era date_in
    year_of_era days_before month_part month_of day_of
dates_test = (refl, refl, refl)
