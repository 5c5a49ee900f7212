-- ===== src/Calendar/Months.antt =====
-- The days of a year, month after month, for rthas/src/time.rs.
use rthas.Prelude.{
  ℕ, suc, ◌+◌, ◌%◌, ◌<◌, ◌≡◌, refl, ap, ◌∙◌, inl, inr, Bool, true, false, false≢true, not, ◌&&◌,
  ◌||◌, arith, ltb, leb, ◌==◌, if◌then◌else◌, ==_iff, Bool-cases,
}
use rthas.Prelude.{all_below, all_below-lt}
use rthas.Calendar.{month_of, day_of}

-- The rule of the Gregorian calendar.
abbrev pub is_leap : ℕ → Bool
is_leap y = (y % 4 == 0) && ((not (y % 100 == 0)) || (y % 400 == 0))

abbrev pub february : ℕ → ℕ
february y = if is_leap y then 29 else 28

abbrev pub month_length : ℕ → ℕ → ℕ
month_length feb m =
    if m == 2 then feb else if (m == 4) || ((m == 6) || ((m == 9) || (m == 11))) then 30 else 31

-- The day behind a day.
abbrev pub next_day : ℕ × ℕ × ℕ → ℕ × ℕ × ℕ
next_day (y, m, d) =
    if ltb d (month_length (february y) m)
    then (y, m, d + 1)
    else if m == 12
    then (y + 1, 1, 1)
    else (y, m + 1, 1)

-- The date of a day of a year that begins in March.
abbrev pub date : ℕ → ℕ → ℕ × ℕ × ℕ
date y doy = ((if leb (month_of doy) 2 then y + 1 else y), month_of doy, day_of doy)

-- The next day within a year, for a February of 28 or 29 days: the months and days, and whether the
-- year goes on from December to January.
abbrev steps : ℕ → ℕ → Bool
steps feb doy =
    let m = month_of doy in
    let m' = month_of (suc doy) in
    if ltb (day_of doy) (month_length feb m)
    then (m' == m) && (day_of (suc doy) == day_of doy + 1)
    else if m == 12
    then (m' == 1) && (day_of (suc doy) == 1)
    else (m' == m + 1) && ((day_of (suc doy) == 1) && not (m == 2))

steps-28 : all_below 364 (steps 28) ≡ true
unfolding month_of day_of
steps-28 = refl

steps-29 : all_below 365 (steps 29) ≡ true
unfolding month_of day_of
steps-29 = refl

-- The same as `steps`, of the numbers themselves.
abbrev follows : ℕ → ℕ → ℕ → ℕ → ℕ → Bool
follows feb m d m' d' =
    if ltb d (month_length feb m)
    then (m' == m) && (d' == d + 1)
    else if m == 12
    then (m' == 1) && (d' == 1)
    else (m' == m + 1) && ((d' == 1) && not (m == 2))

abbrev year_in : ℕ → ℕ → ℕ
year_in y m = if leb m 2 then y + 1 else y

month_length-year :
    (y feb m : ℕ)
    → february (suc y) ≡ feb
    → month_length (february (year_in y m)) m ≡ month_length feb m
month_length-year y feb m e = elim (Bool-cases (m == 2)) [
  | inl second ↦
      let two : m ≡ 2 = (==_iff m 2).0 second in
      let next : y + 1 ≡ suc y = omega arith in rw two (ap february next ∙ e)
  | inr other ↦ rw other refl
]

triple :
    (y m d y' m' d' : ℕ) → y ≡ y' → m ≡ m' → d ≡ d' → ◌≡◌ {A = ℕ × ℕ × ℕ} (y, m, d) (y', m', d')
triple y m d y' m' d' e f g = λ i. (e i, f i, g i)

follows-next_day :
    (y feb m d m' d' : ℕ)
    → february (suc y) ≡ feb
    → follows feb m d m' d' ≡ true
    → ◌≡◌ {A = ℕ × ℕ × ℕ} (year_in y m', m', d') (next_day (year_in y m, m, d))
follows-next_day y feb m d m' d' e h =
    rw (month_length-year y feb m e) (elim (Bool-cases (ltb d (month_length feb m))) [
      | inl within ↦
          let h' : ((m' == m) && (d' == d + 1)) ≡ true = rw within at h in
          let (same, next) = both (m' == m) (d' == d + 1) h' in
          let em = (==_iff m' m).0 same in
          rw within (
            triple (year_in y m') m' d' (year_in y m) m (d + 1) (ap (year_in y) em) em
              ((==_iff d' (d + 1)).0 next))
      | inr over ↦ elim (Bool-cases (m == 12)) [
        | inl december ↦
            let h' : ((m' == 1) && (d' == 1)) ≡ true = rw (over, december) at h in
            let (first, one) = both (m' == 1) (d' == 1) h' in
            let em = (==_iff m 12).0 december in
            let em' = (==_iff m' 1).0 first in
            rw (over, december)
              (triple (year_in y m') m' d' (year_in y m + 1) 1 1 (january m m' em em') em'
                ((==_iff d' 1).0 one))
        | inr earlier ↦
            let h' : ((m' == m + 1) && ((d' == 1) && not (m == 2))) ≡ true =
              rw (over, earlier) at h in
            let (next, rest) = both (m' == m + 1) ((d' == 1) && not (m == 2)) h' in
            let (one, shorter) = both (d' == 1) (not (m == 2)) rest in
            let em' = (==_iff m' (m + 1)).0 next in
            rw (over, earlier)
              (triple (year_in y m') m' d' (year_in y m) (m + 1) 1 (goes_on m m' em' shorter) em'
                ((==_iff d' 1).0 one))
      ]
    ])
  where
    both : (a b : Bool) → (a && b) ≡ true → (a ≡ true) × (b ≡ true)
    both true b e = (refl, e)
    both false b e = absurd (false≢true e)

    january : (m m' : ℕ) → m ≡ 12 → m' ≡ 1 → year_in y m' ≡ year_in y m + 1
    january m m' e e' = rw (e, e') refl

    goes_on : (m m' : ℕ) → m' ≡ m + 1 → not (m == 2) ≡ true → year_in y m' ≡ year_in y m
    goes_on m m' e h = ground arith

pub steps-next_day :
    (y doy : ℕ)
    → suc doy < (if is_leap (suc y) then 366 else 365)
    → date y (suc doy) ≡ next_day (date y doy)
steps-next_day y doy lt = elim (Bool-cases (is_leap (suc y))) [
  | inl leap ↦
      let lt' : suc doy < 366 = rw leap at lt in
      follows-next_day y 29 (month_of doy) (day_of doy) (month_of (suc doy)) (day_of (suc doy))
        (rw leap refl) (all_below-lt 365 (steps 29) steps-29 doy (omega arith))
  | inr common ↦
      let lt' : suc doy < 365 = rw common at lt in
      follows-next_day y 28 (month_of doy) (day_of doy) (month_of (suc doy)) (day_of (suc doy))
        (rw common refl) (all_below-lt 364 (steps 28) steps-28 doy (omega arith))
]

-- The last day of February is behind all others of its year.
pub new_year :
    (y doy : ℕ)
    → suc doy ≡ (if is_leap (suc y) then 366 else 365)
    → date (suc y) 0 ≡ next_day (date y doy)
unfolding month_of day_of
new_year y doy e = elim (Bool-cases (is_leap (suc y))) [
  | inl leap ↦
      let e' : suc doy ≡ 366 = rw leap at e in
      let last : doy ≡ 365 = omega arith in
      let year : y + 1 ≡ suc y = omega arith in rw (last, year, leap) refl
  | inr common ↦
      let e' : suc doy ≡ 365 = rw common at e in
      let last : doy ≡ 364 = omega arith in
      let year : y + 1 ≡ suc y = omega arith in rw (last, year, common) refl
]
