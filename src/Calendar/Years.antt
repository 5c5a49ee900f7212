-- ===== src/Calendar/Years.antt =====
-- The year of an era that rthas/src/time.rs finds.
use rthas.Prelude.{
  ℕ, zero, suc, ◌+◌, ◌-◌, ◌*◌, ◌/◌, ◌≤◌, ◌<◌, ◌≡◌, refl, subst, inl, inr, Bool, true, false,
  false≢true, ◌&&◌, arith, ltb, ◌==◌, ltb→lt, ==_iff, Bool-cases,
}
use rthas.Prelude.{all_below, all_below-lt}
use rthas.Calendar.{year_of_era, days_before}

abbrev shortened : ℕ → ℕ
shortened doe = doe - doe / 1460 + doe / 36524 - doe / 146096

shortened-suc : (n : ℕ) → suc n < 146097 → shortened n ≤ shortened (suc n)
shortened-suc n lt = omega arith

shortened-le : (k n : ℕ) → n + k < 146097 → shortened n ≤ shortened (n + k)
shortened-le zero n lt = omega arith
shortened-le (suc k) n lt =
    let e : n + suc k ≡ suc (n + k) = omega arith in
    rw e (omega (arith, shortened-le k n (omega arith), shortened-suc (n + k) (omega arith)))

year_of_era-le : (a b : ℕ) → a ≤ b → b < 146097 → year_of_era a ≤ year_of_era b
unfolding year_of_era
year_of_era-le a b le lt =
    let e : a + (b - a) ≡ b = omega arith in
    let grows : shortened a ≤ shortened b =
      subst (λ n. shortened a ≤ shortened n) e (shortened-le (b - a) a (omega arith)) in
    omega arith

-- The first day behind a year of an era; the last year has one more.
abbrev pub days_through : ℕ → ℕ
days_through yoe = 365 * (yoe + 1) + (yoe + 1) / 4 - (yoe + 1) / 100 + (yoe + 1) / 400

ends_right : ℕ → Bool
ends_right k = (year_of_era (days_before k) == k) && (year_of_era (days_through k - 1) == k)

ends_right-all : all_below 400 ends_right ≡ true
unfolding ends_right year_of_era days_before
ends_right-all = refl

both_true : (a b : Bool) → (a && b) ≡ true → (a ≡ true) × (b ≡ true)
both_true true b e = (refl, e)
both_true false b e = absurd (false≢true e)

year_of_era-first : (k : ℕ) → k < 400 → year_of_era (days_before k) ≡ k
unfolding ends_right
year_of_era-first k lt =
    let (first, last) =
      both_true (year_of_era (days_before k) == k) (year_of_era (days_through k - 1) == k)
        (all_below-lt 400 ends_right ends_right-all k lt) in
    (==_iff (year_of_era (days_before k)) k).0 first

year_of_era-last : (k : ℕ) → k < 400 → year_of_era (days_through k - 1) ≡ k
unfolding ends_right
year_of_era-last k lt =
    let (first, last) =
      both_true (year_of_era (days_before k) == k) (year_of_era (days_through k - 1) == k)
        (all_below-lt 400 ends_right ends_right-all k lt) in
    (==_iff (year_of_era (days_through k - 1)) k).0 last

pub ltb-le : (a b : ℕ) → ltb a b ≡ false → b ≤ a
ltb-le a b e = ground arith

through-before : (k : ℕ) → suc k < 400 → days_through k ≡ days_before (suc k)
unfolding days_before
through-before k lt = omega arith

-- A day of an era lies in the year that is found.
pub year_of_era_lem :
    (doe : ℕ)
    → doe < 146097
    → (year_of_era doe < 400)
      × (days_before (year_of_era doe) ≤ doe)
      × (doe < days_through (year_of_era doe))
year_of_era_lem doe lt =
    let k = year_of_era doe in
    let small : k < 400 =
      omega (arith, year_of_era-le doe 146096 (omega arith) (omega arith), final_year) in
    (small, begun k refl small, not_over k refl small)
  where
    final_year : year_of_era 146096 ≡ 399
    final_year = unfold year_of_era in refl

    begun : (k : ℕ) → year_of_era doe ≡ k → k < 400 → days_before k ≤ doe
    begun zero e small = unfold days_before in omega arith
    begun (suc k) e small = elim (Bool-cases (ltb doe (days_before (suc k)))) [
      | inl early ↦
          let lt' = ltb→lt doe (days_before (suc k)) early in
          let edge = through-before k small in
          let bound : doe ≤ days_through k - 1 = omega arith in
          absurd (
            omega (
              arith,
              year_of_era-le doe (days_through k - 1) bound (omega arith),
              year_of_era-last k (omega arith),
            ))
      | inr late ↦ ground arith
    ]

    not_over : (k : ℕ) → year_of_era doe ≡ k → k < 400 → doe < days_through k
    not_over k e small = elim (Bool-cases (ltb doe (days_through k))) [
      | inl inside ↦ ltb→lt doe (days_through k) inside
      | inr beyond ↦
          let over : days_through k ≤ doe = ltb-le doe (days_through k) beyond in
          elim (Bool-cases (ltb (suc k) 400)) [
            | inl inner ↦
                let next : suc k < 400 = ltb→lt (suc k) 400 inner in
                let edge = through-before k next in
                let there : days_before (suc k) ≤ doe = omega arith in
                absurd (
                  omega (
                    arith,
                    year_of_era-le (days_before (suc k)) doe there lt,
                    year_of_era-first (suc k) next,
                  ))
            | inr final ↦
                let at_end : k ≡ 399 = omega (arith, ltb-le (suc k) 400 final) in
                let whole : days_through k ≡ 146097 = rw at_end refl in absurd (omega arith)
          ]
    ]
