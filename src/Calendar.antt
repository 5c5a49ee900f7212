-- ===== src/Calendar.antt =====
-- `civil_from_days` of rthas/src/time.rs, which rthas-ebpf/src/stats.rs has too. What it computes in
-- `i64` and casts wraps. From the day of the era on all is `u64`, far from its bounds, and no
-- difference is negative.
pub mod Years
pub mod Months
pub mod Days
pub mod Eras
pub mod Signed
use rthas.Prelude.{ℕ, ◌+◌, ◌-◌, ◌*◌, ◌/◌, ◌%◌, u32_mod, ltb, leb, if◌then◌else◌}
use rthas.Prelude.{ℤ, pos, ◌+ℤ◌, ◌-ℤ◌, times, quot, is_negative, as_u64, i64, as_i32}

-- The year of the era, of 400 years, from the day of the era.
unfoldable pub year_of_era : ℕ → ℕ
year_of_era doe = (doe - doe / 1460 + doe / 36524 - doe / 146096) / 365

-- The days of an era in front of a year of it; years begin in March.
unfoldable pub days_before : ℕ → ℕ
days_before yoe = 365 * yoe + yoe / 4 - yoe / 100

unfoldable pub month_part : ℕ → ℕ
month_part doy = (5 * doy + 2) / 153

unfoldable pub month_of : ℕ → ℕ
unfolding month_part
month_of doy = let mp = month_part doy in if ltb mp 10 then mp + 3 else mp - 9

unfoldable pub day_of : ℕ → ℕ
unfolding month_part
day_of doy = doy - (153 * month_part doy + 2) / 5 + 1

unfoldable pub era_of : ℤ → ℤ
unfolding ◌-ℤ◌ quot i64
era_of z = quot (if is_negative z then i64 (z -ℤ pos 146096) else z) 146097

unfoldable pub day_of_era : ℤ → ℤ → ℕ
unfolding ◌-ℤ◌ times i64 as_u64
day_of_era z era = as_u64 (i64 (z -ℤ i64 (times era 146097)))

-- The year, the month and the day, from the era and the day in it.
unfoldable pub date_in : ℤ → ℕ → ℤ × ℕ × ℕ
unfolding year_of_era days_before month_of day_of ◌+ℤ◌ times i64 as_i32
date_in era doe =
    let yoe = year_of_era doe in
    let y = i64 (pos yoe +ℤ i64 (times era 400)) in
    let doy = doe - days_before yoe in
    let d = day_of doy % u32_mod in
    let m = month_of doy in
    let y' = if leb m 2 then i64 (y +ℤ pos 1) else y in (as_i32 y', m % u32_mod, d)

unfoldable pub civil_from_days : ℤ → ℤ × ℕ × ℕ
unfolding era_of day_of_era date_in i64
civil_from_days days =
    let z = i64 (days +ℤ pos 719468) in let era = era_of z in date_in era (day_of_era z era)
