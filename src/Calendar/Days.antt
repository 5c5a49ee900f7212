-- ===== src/Calendar/Days.antt =====
-- Day after day from 0000-03-01 on, for rthas/src/time.rs.
use rthas.Prelude.{
  ℕ, suc, ◌+◌, ◌-◌, ◌*◌, ◌/◌, ◌≤◌, ◌<◌, ◌≡◌, sym, ap, ◌∙◌, inl, inr, arith, ltb, if◌then◌else◌,
  ltb→lt, Bool-cases,
}
use rthas.Calendar.{year_of_era, days_before}
use rthas.Calendar.Years.{days_through, year_of_era_lem, ltb-le}
use rthas.Calendar.Months.{is_leap, next_day, date, steps-next_day, new_year}

-- Days since 0000-03-01 in front of a year.
abbrev pub begins : ℕ → ℕ
begins y = 365 * y + y / 4 - y / 100 + y / 400

year_length : (y : ℕ) → begins (suc y) ≡ begins y + (if is_leap (suc y) then 366 else 365)
year_length y = ground arith

begins-le : (a b : ℕ) → a ≤ b → begins a ≤ begins b
begins-le a b le = omega arith

-- A year and the days that lie in it.
abbrev pub In : ℕ → ℕ → Type 0
In z y = (begins y ≤ z) × (z < begins (suc y))

In-unique : (z k l : ℕ) → In z k → In z l → k ≡ l
In-unique z k l (a, b) (c, d) = elim (Bool-cases (ltb k l)) [
  | inl less ↦ absurd (omega (arith, begins-le (suc k) l (ltb→lt k l less)))
  | inr more ↦ elim (Bool-cases (ltb l k)) [
    | inl less ↦ absurd (omega (arith, begins-le (suc l) k (ltb→lt l k less)))
    | inr equal ↦ omega (arith, ltb-le k l more, ltb-le l k equal)
  ]
]

-- The year that the algorithm finds.
abbrev pub year_at : ℕ → ℕ
year_at z = year_of_era (z - z / 146097 * 146097) + z / 146097 * 400

pub year_at-In : (z : ℕ) → In z (year_at z)
unfolding days_before
year_at-In z =
    let doe = z - z / 146097 * 146097 in
    let inside : doe < 146097 = omega arith in
    let (small, first, last) = year_of_era_lem doe inside in
    between (year_of_era doe) (z / 146097) doe small first last (omega arith)
  where
    between :
        (yoe era doe : ℕ)
        → yoe < 400
        → days_before yoe ≤ doe
        → doe < days_through yoe
        → z ≡ doe + era * 146097
        → In z (yoe + era * 400)
    between yoe era doe small first last e = (omega arith, omega arith)

-- The date of a day, from the days since 0000-03-01.
abbrev pub from_march : ℕ → ℕ × ℕ × ℕ
from_march z =
    let era = z / 146097 in
    let doe = z - era * 146097 in
    let yoe = year_of_era doe in date (yoe + era * 400) (doe - days_before yoe)

date_at : (z : ℕ) → from_march z ≡ date (year_at z) (z - begins (year_at z))
unfolding days_before
date_at z =
    let doe = z - z / 146097 * 146097 in
    let inside : doe < 146097 = omega arith in
    let (small, first, last) = year_of_era_lem doe inside in
    let same : doe - days_before (year_of_era doe) ≡ z - begins (year_at z) =
      day_in (year_of_era doe) (z / 146097) doe small first (omega arith) in
    ap (date (year_at z)) same
  where
    day_in :
        (yoe era doe : ℕ)
        → yoe < 400
        → days_before yoe ≤ doe
        → z ≡ doe + era * 146097
        → doe - days_before yoe ≡ z - begins (yoe + era * 400)
    day_in yoe era doe small first e = omega arith

pub from_march-next : (z : ℕ) → from_march (suc z) ≡ next_day (from_march z)
from_march-next z =
    let y = year_at z in
    let doy = z - begins y in
    let (first, last) = year_at-In z in
    elim (Bool-cases (ltb (suc z) (begins (suc y)))) [
      | inl inside ↦
          let lt = ltb→lt (suc z) (begins (suc y)) inside in
          let same : year_at (suc z) ≡ y =
            In-unique (suc z) (year_at (suc z)) y (year_at-In (suc z)) (omega arith, lt) in
          let next : suc z - begins y ≡ suc doy = omega arith in
          date_at (suc z)
          ∙ ap (λ k. date k (suc z - begins k)) same
          ∙ ap (date y) next
          ∙ steps-next_day y doy (omega (arith, year_length y))
          ∙ ap next_day (sym (date_at z))
      | inr beyond ↦
          let edge : suc z ≡ begins (suc y) =
            omega (arith, ltb-le (suc z) (begins (suc y)) beyond) in
          let other : year_at (suc z) ≡ suc y =
            In-unique (suc z) (year_at (suc z)) (suc y) (year_at-In (suc z))
              (omega arith, omega (arith, year_length (suc y), longer (suc y))) in
          let none_passed : suc z - begins (suc y) ≡ 0 = omega arith in
          date_at (suc z)
          ∙ ap (λ k. date k (suc z - begins k)) other
          ∙ ap (date (suc y)) none_passed
          ∙ new_year y doy (omega (arith, year_length y))
          ∙ ap next_day (sym (date_at z))
    ]
  where
    longer : (y : ℕ) → 1 ≤ (if is_leap (suc y) then 366 else 365)
    longer y = ground arith
