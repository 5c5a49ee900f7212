-- ===== src/Calendar/Signed.antt =====
-- Day after day, before 1970 and from then on, for rthas/src/time.rs.
use rthas.Prelude.{
  ℕ, suc, ◌+◌, ◌%◌, ◌≤◌, ◌<◌, ◌≡◌, refl, sym, ap, ◌∙◌, Bool, true, false, not, ◌&&◌, ◌||◌, arith,
  ltb, ◌==◌, if◌then◌else◌,
}
use rthas.Prelude.{
  ℤ, pos, negsuc, pos_part, neg_part, sub_ℕ, rem, ◌+ℤ◌, ◌-ℤ◌, times, quot, as_u64, i64, as_i32,
  i64-fits,
}
use rthas.Calendar.{
  year_of_era, days_before, month_part, month_of, day_of, era_of, day_of_era, date_in,
  civil_from_days,
}
use rthas.Calendar.Months.{is_leap, february, month_length, next_day}
use rthas.Calendar.Days.{from_march, from_march-next}
use rthas.Calendar.Eras.{moved, lower, date_of-lower}

-- The rule of the Gregorian calendar, for the years before the year 0 too, and the day behind a day.
abbrev pub is_leap_year : ℤ → Bool
is_leap_year y = (rem y 4 == 0) && ((not (rem y 100 == 0)) || (rem y 400 == 0))

abbrev pub tomorrow : ℤ × ℕ × ℕ → ℤ × ℕ × ℕ
tomorrow (y, m, d) =
    if ltb d (month_length (if is_leap_year y then 29 else 28) m)
    then (y, m, d + 1)
    else if m == 12
    then (y +ℤ pos 1, 1, 1)
    else (y, m + 1, 1)

rem-lower :
    (y : ℕ)
    → (rem (sub_ℕ y 2160000000) 4 ≡ y % 4)
      × (rem (sub_ℕ y 2160000000) 100 ≡ y % 100)
      × (rem (sub_ℕ y 2160000000) 400 ≡ y % 400)
rem-lower y = (ground arith, ground arith, ground arith)

is_leap_year-lower : (y : ℕ) → is_leap y ≡ is_leap_year (sub_ℕ y 2160000000)
is_leap_year-lower y =
    let (four, hundred, all) = rem-lower y in
    sym (λ i. (four i == 0) && ((not (hundred i == 0)) || (all i == 0)))

-- The day behind, by whether the month goes on and whether it is the last one.
abbrev behind : Bool → Bool → ℤ → ℕ → ℕ → ℤ × ℕ × ℕ
behind goes_on last y m d =
    if goes_on then (y, m, d + 1) else if last then (y +ℤ pos 1, 1, 1) else (y, m + 1, 1)

lower-behind :
    (goes_on last : Bool) (y m d : ℕ)
    → lower (if goes_on then (y, m, d + 1) else if last then (y + 1, 1, 1) else (y, m + 1, 1))
      ≡ behind goes_on last (sub_ℕ y 2160000000) m d
unfolding ◌+ℤ◌
lower-behind true last y m d = refl
lower-behind false false y m d = refl
lower-behind false true y m d =
    let next : sub_ℕ (y + 1) 2160000000 ≡ sub_ℕ y 2160000000 +ℤ pos 1 = ground arith in
    λ i. (next i, 1, 1)

lower-next_day : (t : ℕ × ℕ × ℕ) → lower (next_day t) ≡ tomorrow (lower t)
lower-next_day (y, m, d) =
    lower-behind (ltb d (month_length (february y) m)) (m == 12) y m d
    ∙ ap
        (λ leap.
          behind (ltb d (month_length (if leap then 29 else 28) m)) (m == 12) (sub_ℕ y 2160000000) m
            d)
        (is_leap_year-lower y)

civil_from_days-lower :
    (days : ℤ)
    → pos_part days < 784050000000
    → neg_part days < 784050000000
    → civil_from_days days ≡ lower (from_march (moved (days +ℤ pos 719468)))
unfolding civil_from_days ◌+ℤ◌
civil_from_days-lower days low high =
    ap (λ z. date_in (era_of z) (day_of_era z (era_of z)))
      (i64-fits (days +ℤ pos 719468) (ground arith) (ground arith))
    ∙ date_of-lower (days +ℤ pos 719468) (ground arith) (ground arith)

moved-next :
    (days : ℤ)
    → neg_part days < 784050000000
    → moved (days +ℤ pos 1 +ℤ pos 719468) ≡ suc (moved (days +ℤ pos 719468))
unfolding ◌+ℤ◌
moved-next (pos n) high = ground arith
moved-next (negsuc n) high = ground arith

one_more :
    (days : ℤ)
    → pos_part days ≤ 784000000000
    → neg_part days ≤ 784000000000
    → (pos_part (days +ℤ pos 1) < 784050000000) × (neg_part (days +ℤ pos 1) < 784050000000)
unfolding ◌+ℤ◌
one_more days low high = (ground arith, ground arith)

-- Day 0 is the first of January 1970, and for the days up to 784000000000 before and behind it,
-- more than two thousand million years each way, the date of a day is followed by that of the next
-- day: the next one of the month, the first of the next month or the first of January of the next
-- year, by the lengths of the months and the leap years of the Gregorian calendar, which has a
-- year 0.
pub civil_from_days-next :
    (days : ℤ)
    → pos_part days ≤ 784000000000
    → neg_part days ≤ 784000000000
    → (civil_from_days (pos 0) ≡ (pos 1970, 1, 1))
      × (civil_from_days (days +ℤ pos 1) ≡ tomorrow (civil_from_days days))
civil_from_days-next days low high = (
  unfold civil_from_days ◌+ℤ◌ ◌-ℤ◌ times quot as_u64 i64 as_i32 era_of day_of_era date_in
        year_of_era days_before month_part month_of day_of in
      refl,
  civil_from_days-lower (days +ℤ pos 1) (one_more days low high).0 (one_more days low high).1
      ∙ ap lower (ap from_march (moved-next days (omega arith)))
      ∙ ap lower (from_march-next (moved (days +ℤ pos 719468)))
      ∙ lower-next_day (from_march (moved (days +ℤ pos 719468)))
      ∙ ap tomorrow (sym (civil_from_days-lower days (omega arith) (omega arith))),
)
