-- ===== src/Protocol/Timestamp/Calendar/Order.antt =====
-- Later days have later dates.
use sockpost.Common.{
  ℕ, zero, suc, ◌+◌, ◌-◌, ◌≤◌, ◌<◌, ◌≡◌, sym, subst, Bool, true, false, List, [], ◌∷◌, arith, leb,
  Bool-cases, inl, inr, length,
}
use sockpost.Protocol.Timestamp.Calendar.{
  Date, is_leap, days_before_year, days_before_year-suc, month_lengths, days_before, days_in,
  is_date, days_of, IsDateOf, IsDateOf-bounds, total, total-month_lengths,
}

-- A month ends before a later one begins.
days_before-later :
    (lengths : List ℕ) (m k : ℕ)
    → m < k
    → k ≤ length lengths
    → days_before lengths m + days_in lengths m ≤ days_before lengths k
unfolding days_before days_in
days_before-later [] m k h l = omega arith
days_before-later (n ∷ lengths) m zero h l = absurd (omega arith)
days_before-later (n ∷ lengths) zero (suc zero) h l = omega arith
days_before-later (n ∷ lengths) (suc m) (suc zero) h l = absurd (omega arith)
days_before-later (n ∷ lengths) zero (suc (suc k)) h l = omega arith
days_before-later (n ∷ lengths) (suc zero) (suc (suc k)) h l = omega arith
days_before-later (n ∷ lengths) (suc (suc m)) (suc (suc k)) h l =
    omega (arith, days_before-later lengths (suc m) (suc k) (omega arith) (omega arith))

days_before-total :
    (lengths : List ℕ) (m : ℕ) → days_before lengths m + days_in lengths m ≤ total lengths
unfolding days_before days_in total
days_before-total [] m = omega arith
days_before-total (n ∷ lengths) zero = omega arith
days_before-total (n ∷ lengths) (suc zero) = omega arith
days_before-total (n ∷ lengths) (suc (suc m)) = omega (arith, days_before-total lengths (suc m))

days_before_year_mono : (y z : ℕ) → y ≤ z → days_before_year y ≤ days_before_year z
unfolding days_before_year
days_before_year_mono y z h = omega arith

days_of-next_year :
    (date : Date) → is_date date ≡ true → days_of date < days_before_year (suc date.year)
unfolding is_date days_of
days_of-next_year date h =
    let first : 1 ≤ date.year = ground arith in
    let inside : date.day ≤ days_in (month_lengths (is_leap date.year)) date.month = ground arith in
    let one : 1 ≤ date.day = ground arith in
    omega (
      arith,
      days_before_year-suc date.year first,
      days_before-total (month_lengths (is_leap date.year)) date.month,
      total-month_lengths date.year,
      inside,
      one,
    )

days_of-start : (date : Date) → days_before_year date.year ≤ days_of date
unfolding days_of
days_of-start date = omega arith

-- An earlier day is in no later year.
pub year_mono : (x y : ℕ) (d e : Date) → IsDateOf x d → IsDateOf y e → x ≤ y → d.year ≤ e.year
year_mono x y d e (valid_d, whole_d, last_d, few_d) (valid_e, whole_e, last_e, few_e) h =
    elim (Bool-cases (leb d.year e.year)) [
      | inl q ↦ ground arith
      | inr q ↦ absurd (
          omega (
            arith,
            whole_d,
            whole_e,
            days_of-next_year e valid_e,
            days_before_year_mono (suc e.year) d.year (later q),
            days_of-start d,
          ))
    ]
  where
    later : leb d.year e.year ≡ false → suc e.year ≤ d.year
    later q = ground arith

day_within :
    (date : Date)
    → is_date date ≡ true
    → (1 ≤ date.day) × (date.day ≤ days_in (month_lengths (is_leap date.year)) date.month)
unfolding is_date
day_within date h = ground arith

module _ (x y : ℕ) (d e : Date) (of_d : IsDateOf x d) (of_e : IsDateOf y e) (h : x ≤ y)
    (same : d.year ≡ e.year) where
  days_into_year : (date : Date) → ℕ
  days_into_year date = days_before (month_lengths (is_leap d.year)) date.month + (date.day - 1)

  days_into_year_mono : days_into_year d ≤ days_into_year e
  unfolding days_into_year days_of
  days_into_year_mono = omega (arith, of_d.1, rw (← same) at of_e.1)

  few : (b : Bool) → d.month ≤ length (month_lengths b)
  unfolding month_lengths
  few b = omega (arith, of_d.3)

  inside : (e.day ≤ days_in (month_lengths (is_leap d.year)) e.month) × (1 ≤ e.day)
  inside =
      let (first, most) = day_within e of_e.0 in
      (subst (λ n. e.day ≤ days_in (month_lengths (is_leap n)) e.month) (sym same) most, first)

  -- In one year, an earlier day is in no later month.
  pub month_mono : d.month ≤ e.month
  unfolding days_into_year
  month_mono = elim (Bool-cases (leb d.month e.month)) [
    | inl q ↦ ground arith
    | inr q ↦ absurd (
        omega (
          arith,
          days_into_year_mono,
          days_before-later (month_lengths (is_leap d.year)) e.month d.month (later q)
              (few (is_leap d.year)),
          inside,
        ))
  ]
    where
      later : leb d.month e.month ≡ false → e.month < d.month
      later q = ground arith

  -- In one month, an earlier day has no larger number.
  pub day_mono : d.month ≡ e.month → d.day ≤ e.day
  unfolding days_into_year
  day_mono q =
      omega (arith, rw q at days_into_year_mono, IsDateOf-bounds x d of_d, IsDateOf-bounds y e of_e)
