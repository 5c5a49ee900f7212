-- ===== src/Calendar/Eras.antt =====
-- The date that rthas/src/time.rs computes, from the eras. The days are moved by 5400000 of them, so
-- that none is negative.
use rthas.Prelude.{
  ℕ, suc, ◌+◌, ◌-◌, ◌*◌, ◌/◌, ◌%◌, ◌^◌, ◌≤◌, ◌<◌, ◌≡◌, refl, sym, ap, ◌∙◌, Bool, true, false, arith,
  leb, if◌then◌else◌, u32_mod,
}
use rthas.Prelude.{
  ℤ, pos, negsuc, pos_part, neg_part, sub_ℕ, ◌+ℤ◌, ◌-ℤ◌, times, quot, as_u64, i64, as_i32, i64-fits,
  as_i32-fits,
}
use rthas.Calendar.{
  year_of_era, days_before, month_part, month_of, day_of, era_of, day_of_era, date_in,
}
use rthas.Calendar.Years.{year_of_era_lem}
use rthas.Calendar.Months.{date}
use rthas.Calendar.Days.{from_march}

abbrev pub moved : ℤ → ℕ
moved z = pos_part z + 788923800000 - neg_part z

-- The year that stands 5400000 eras earlier.
abbrev pub lower : ℕ × ℕ × ℕ → ℤ × ℕ × ℕ
lower (y, m, d) = (sub_ℕ y 2160000000, m, d)

era_of-pos : (n : ℕ) → era_of (pos n) ≡ pos (n / 146097)
unfolding era_of quot
era_of-pos n = refl

era_of-negsuc : (n : ℕ) → n < 785000000000 → era_of (negsuc n) ≡ negsuc (n / 146097)
unfolding era_of quot ◌-ℤ◌
era_of-negsuc n lt =
    let sum : negsuc n -ℤ pos 146096 ≡ negsuc (n + 146096) = ground arith in
    let kept = i64-fits (negsuc (n + 146096)) (omega arith) (omega arith) in
    ap (λ z. quot (i64 z) 146097) sum ∙ ap (λ z. quot z 146097) kept ∙ ground arith

day_of_era-eq :
    (z era : ℤ) (doe : ℕ)
    → pos_part (times era 146097) < 2 ^ 63
    → neg_part (times era 146097) < 2 ^ 63
    → z -ℤ times era 146097 ≡ pos doe
    → doe < 146097
    → day_of_era z era ≡ doe
unfolding day_of_era as_u64
day_of_era-eq z era doe low high e lt =
    ap (λ k. as_u64 (i64 (z -ℤ k))) (i64-fits (times era 146097) low high)
    ∙ ap (λ k. as_u64 (i64 k)) e
    ∙ ap as_u64 (i64-fits (pos doe) (omega arith) (omega arith))
    ∙ omega arith

days_of-pos :
    (n : ℕ) → n < 785000000000 → day_of_era (pos n) (pos (n / 146097)) ≡ n - n / 146097 * 146097
unfolding times ◌-ℤ◌
days_of-pos n lt =
    day_of_era-eq (pos n) (pos (n / 146097)) (n - n / 146097 * 146097) (omega arith) (omega arith)
      (ground arith) (omega arith)

days_of-negsuc :
    (n : ℕ)
    → n < 785000000000
    → day_of_era (negsuc n) (negsuc (n / 146097)) ≡ (n / 146097 + 1) * 146097 - n - 1
unfolding times ◌-ℤ◌
days_of-negsuc n lt =
    day_of_era-eq (negsuc n) (negsuc (n / 146097)) ((n / 146097 + 1) * 146097 - n - 1)
      (ground arith) (ground arith) (ground arith) (omega arith)

-- The year that `date_in` computes, in front of January and February.
year-eq :
    (yoe : ℕ) (era : ℤ)
    → yoe < 400
    → pos_part era ≤ 5368000
    → neg_part era ≤ 5368000
    → i64 (pos yoe +ℤ i64 (times era 400))
      ≡ sub_ℕ (yoe + (pos_part era + 5400000 - neg_part era) * 400) 2160000000
unfolding times ◌+ℤ◌
year-eq yoe (pos e) lt low high =
    ap (λ k. i64 (pos yoe +ℤ k)) (i64-fits (pos (e * 400)) (omega arith) (omega arith))
    ∙ i64-fits (pos yoe +ℤ pos (e * 400)) (ground arith) (ground arith)
    ∙ ground arith
year-eq yoe (negsuc e) lt low high =
    let product : times (negsuc e) 400 ≡ negsuc ((e + 1) * 400 - 1) = ground arith in
    ap (λ k. i64 (pos yoe +ℤ i64 k)) product
    ∙ ap (λ k. i64 (pos yoe +ℤ k))
        (i64-fits (negsuc ((e + 1) * 400 - 1)) (omega arith) (omega arith))
    ∙ i64-fits (pos yoe +ℤ negsuc ((e + 1) * 400 - 1)) (ground arith) (ground arith)
    ∙ ground arith

year_shown :
    (late : Bool) (y : ℕ)
    → 12800000 ≤ y
    → y < 4307200400
    → as_i32 (if late then i64 (sub_ℕ y 2160000000 +ℤ pos 1) else sub_ℕ y 2160000000)
      ≡ sub_ℕ (if late then y + 1 else y) 2160000000
unfolding ◌+ℤ◌
year_shown false y low high = as_i32-fits (sub_ℕ y 2160000000) (ground arith) (ground arith)
year_shown true y low high =
    let next : sub_ℕ y 2160000000 +ℤ pos 1 ≡ sub_ℕ (y + 1) 2160000000 = ground arith in
    ap (λ k. as_i32 (i64 k)) next
    ∙ ap as_i32 (i64-fits (sub_ℕ (y + 1) 2160000000) (ground arith) (ground arith))
    ∙ as_i32-fits (sub_ℕ (y + 1) 2160000000) (ground arith) (ground arith)

month_of-fits : (doy : ℕ) → doy < 146097 → month_of doy % u32_mod ≡ month_of doy
unfolding month_of month_part
month_of-fits doy lt = ground arith

day_of-fits : (doy : ℕ) → doy < 146097 → day_of doy % u32_mod ≡ day_of doy
unfolding day_of
day_of-fits doy lt = omega arith

date_in-lower :
    (era : ℤ) (doe : ℕ)
    → doe < 146097
    → pos_part era ≤ 5368000
    → neg_part era ≤ 5368000
    → date_in era doe
      ≡ lower (
          date
            (year_of_era doe + (pos_part era + 5400000 - neg_part era) * 400)
            (doe - days_before (year_of_era doe)))
unfolding date_in
date_in-lower era doe lt low high =
    let yoe = year_of_era doe in
    let doy = doe - days_before yoe in
    let y = yoe + (pos_part era + 5400000 - neg_part era) * 400 in
    let (small, first, last) = year_of_era_lem doe lt in
    let january = leb (month_of doy) 2 in
    let year =
      ap (λ k. as_i32 (if january then i64 (k +ℤ pos 1) else k)) (year-eq yoe era small low high)
      ∙ year_shown january y (omega arith) (omega arith) in
    let month = month_of-fits doy (omega arith) in
    let day = day_of-fits doy (omega arith) in λ i. (year i, month i, day i)

date-from_march :
    (r era doe : ℕ)
    → r / 146097 ≡ era
    → r - r / 146097 * 146097 ≡ doe
    → date (year_of_era doe + era * 400) (doe - days_before (year_of_era doe)) ≡ from_march r
date-from_march r era doe e f =
    sym (λ i. date (year_of_era (f i) + e i * 400) (f i - days_before (year_of_era (f i))))

pub date_of-lower :
    (z : ℤ)
    → pos_part z < 784100000000
    → neg_part z < 784100000000
    → date_in (era_of z) (day_of_era z (era_of z)) ≡ lower (from_march (moved z))
date_of-lower (pos n) low high =
    let doe = n - n / 146097 * 146097 in
    ap (λ e. date_in e (day_of_era (pos n) e)) (era_of-pos n)
    ∙ ap (date_in (pos (n / 146097))) (days_of-pos n (omega arith))
    ∙ date_in-lower (pos (n / 146097)) doe (omega arith) (omega arith) (omega arith)
    ∙ ap lower
        (date-from_march (moved (pos n)) (n / 146097 + 5400000 - 0) doe (omega arith) (omega arith))
date_of-lower (negsuc n) low high =
    let doe = (n / 146097 + 1) * 146097 - n - 1 in
    ap (λ e. date_in e (day_of_era (negsuc n) e)) (era_of-negsuc n (omega arith))
    ∙ ap (date_in (negsuc (n / 146097))) (days_of-negsuc n (omega arith))
    ∙ date_in-lower (negsuc (n / 146097)) doe (omega arith) (omega arith) (omega arith)
    ∙ ap lower (
        date-from_march (moved (negsuc n)) (0 + 5400000 - suc (n / 146097)) doe (omega arith)
          (omega arith))
