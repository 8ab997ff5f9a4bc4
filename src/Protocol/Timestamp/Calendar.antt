-- ===== src/Protocol/Timestamp/Calendar.antt =====
-- The calendar of Python's `datetime`: dates and the days that they stand for.
pub mod Order
use sockpost.Common.{
  ℕ, zero, suc, ◌+◌, ◌-◌, ◌*◌, ◌/◌, ◌%◌, ◌≤◌, ◌<◌, ◌≡◌, refl, Bool, true, false, not, ◌&&◌, ◌||◌,
  List, [], ◌∷◌, arith, ltb, leb, ◌==◌, if◌then◌else◌, Bool-cases, inl, inr, length, all,
}

unfoldable pub is_leap : ℕ → Bool
is_leap year = year % 4 == 0 && (not (year % 100 == 0) || year % 400 == 0)

unfoldable pub year_length : ℕ → ℕ
unfolding is_leap
year_length year = if is_leap year then 366 else 365

-- The days from the start of the year 1.
unfoldable pub days_before_year : ℕ → ℕ
days_before_year year = (year - 1) * 365 + (year - 1) / 4 - (year - 1) / 100 + (year - 1) / 400

unfoldable pub month_lengths : Bool → List ℕ
month_lengths leap =
    31 ∷ (if leap then 29 else 28) ∷ 31 ∷ 30 ∷ 31 ∷ 30 ∷ 31 ∷ 31 ∷ 30 ∷ 31 ∷ 30 ∷ 31 ∷ []

pub record Date : Type 0 where
  pub year : ℕ
  pub month : ℕ
  pub day : ℕ

-- The year of a day, counted from the start of `year`, and what is left of the days.
unfoldable pub year_from : ℕ → ℕ → ℕ → ℕ × ℕ
unfolding year_length
year_from zero year days = (year, days)
year_from (suc fuel) year days = elim (ltb days (year_length year)) [
  | true ↦ (year, days)
  | false ↦ year_from fuel (suc year) (days - year_length year)
]

unfoldable pub month_from : List ℕ → ℕ → ℕ → ℕ × ℕ
month_from [] month days = (month, days)
month_from (n ∷ lengths) month days =
    if ltb days n then (month, days) else month_from lengths (suc month) (days - n)

on_month : ℕ → ℕ × ℕ → Date
on_month year (month, day) = record { year = year; month = month; day = suc day }

in_year : ℕ × ℕ → Date
unfolding month_from month_lengths on_month
in_year (year, days) = on_month year (month_from (month_lengths (is_leap year)) 1 days)

-- The date of a day from 1970 on. The years up to 9999 are fuel enough.
unfoldable pub date_of : ℕ → Date
unfolding year_from in_year
date_of days = in_year (year_from 8030 1970 days)

-- The days of the months before one.
unfoldable pub days_before : List ℕ → ℕ → ℕ
days_before [] month = 0
days_before (n ∷ lengths) zero = 0
days_before (n ∷ lengths) (suc zero) = 0
days_before (n ∷ lengths) (suc (suc month)) = n + days_before lengths (suc month)

-- The days of a month; no month has the number zero.
unfoldable pub days_in : List ℕ → ℕ → ℕ
days_in [] month = 0
days_in (n ∷ lengths) zero = 0
days_in (n ∷ lengths) (suc zero) = n
days_in (n ∷ lengths) (suc (suc month)) = days_in lengths (suc month)

unfoldable pub is_date : Date → Bool
unfolding month_lengths days_in
is_date date =
    leb 1 date.year
    && leb 1 date.day
    && leb date.day (days_in (month_lengths (is_leap date.year)) date.month)

-- The days from the start of the year 1 to a date.
unfoldable pub days_of : Date → ℕ
unfolding days_before_year days_before
days_of date =
    days_before_year date.year
    + days_before (month_lengths (is_leap date.year)) date.month
    + (date.day - 1)

-- The next year starts a year later.
pub days_before_year-suc :
    (year : ℕ) → 1 ≤ year → days_before_year (suc year) ≡ days_before_year year + year_length year
unfolding days_before_year year_length is_leap
days_before_year-suc year h = ground arith

year_from-days :
    (fuel year days end : ℕ)
    → 1 ≤ year
    → year + fuel ≡ end
    → days_before_year year + days < days_before_year end
    → let (y, rest) = year_from fuel year days in
      (days_before_year year + days ≡ days_before_year y + rest)
      × (rest < year_length y)
      × (1 ≤ y)
      × (y < end)
unfolding year_from
year_from-days zero year days end p e h =
    let same : year ≡ end = omega arith in absurd (omega (arith, rw same at h))
year_from-days (suc fuel) year days end p e h = elim (Bool-cases (ltb days (year_length year))) [
  | inl q ↦ rw (year_from, q) (refl, ground arith, p, omega arith)
  | inr q ↦
      let next : days_before_year (suc year) ≡ days_before_year year + year_length year =
        days_before_year-suc year p in
      let less : year_length year ≤ days = ground arith in
      let (total, short, first, last) =
        year_from-days fuel (suc year) (days - year_length year) end (omega arith) (omega arith)
          (omega (arith, next, less, h)) in
      rw (year_from, q) (omega (arith, total, next, less), short, first, last)
]

pub total : List ℕ → ℕ
total [] = 0
total (n ∷ lengths) = n + total lengths

month_from-days :
    (lengths : List ℕ) (month days : ℕ)
    → days < total lengths
    → let (m, rest) = month_from lengths month days in
      (k : ℕ) × (m ≡ month + k)
      × (days ≡ days_before lengths (suc k) + rest)
      × (rest < days_in lengths (suc k))
      × (k < length lengths)
unfolding month_from days_before days_in total
month_from-days [] month days h = absurd (omega arith)
month_from-days (n ∷ lengths) month days h = elim (Bool-cases (ltb days n)) [
  | inl q ↦ rw (month_from, q) (0, omega arith, omega arith, ground arith, omega arith)
  | inr q ↦
      let less : n ≤ days = ground arith in
      let (k, e, split, short, last) =
        month_from-days lengths (suc month) (days - n) (omega (arith, less, h)) in
      rw (month_from, q)
        (suc k, omega (arith, e), omega (arith, split, less), short, omega (arith, last))
]

pub total-month_lengths : (year : ℕ) → total (month_lengths (is_leap year)) ≡ year_length year
unfolding total month_lengths year_length
total-month_lengths year = by_leap (is_leap year)
  where
    by_leap : (b : Bool) → total (month_lengths b) ≡ (if b then 366 else 365)
    by_leap true = refl
    by_leap false = refl

abbrev pub IsDateOf : ℕ → Date → Type 0
IsDateOf days date =
    (is_date date ≡ true) × (719162 + days ≡ days_of date) × (date.year < 10000) × (date.month < 13)

length-month_lengths : (b : Bool) → length (month_lengths b) ≡ 12
unfolding month_lengths
length-month_lengths b = refl

days_in-le :
    (lengths : List ℕ) (k : ℕ) → all (λ n. leb n 31) lengths ≡ true → days_in lengths k ≤ 31
unfolding days_in
days_in-le [] k h = omega arith
days_in-le (n ∷ lengths) zero h = omega arith
days_in-le (n ∷ lengths) (suc zero) h = ground arith
days_in-le (n ∷ lengths) (suc (suc k)) h = ground (arith, days_in-le lengths (suc k))

on_month-IsDateOf :
    (year days k : ℕ) (p : ℕ × ℕ)
    → 1 ≤ year
    → year < 10000
    → p.0 ≡ 1 + k
    → 719162 + days
      ≡ days_before_year year + (days_before (month_lengths (is_leap year)) (suc k) + p.1)
    → p.1 < days_in (month_lengths (is_leap year)) (suc k)
    → k < 12
    → IsDateOf days (on_month year p)
unfolding is_date days_of on_month
on_month-IsDateOf year days k (m, r) first last e whole inside few =
    let same : m ≡ suc k = omega (arith, e) in
    rw same (ground arith, omega (arith, whole), last, omega arith)

in_year-IsDateOf :
    (days : ℕ) (p : ℕ × ℕ)
    → 719162 + days ≡ days_before_year p.0 + p.1
    → p.1 < year_length p.0
    → 1 ≤ p.0
    → p.0 < 10000
    → IsDateOf days (in_year p)
unfolding in_year
in_year-IsDateOf days (year, rest) whole short first last =
    let (k, e, split, inside, few) =
      month_from-days (month_lengths (is_leap year)) 1 rest (rw (total-month_lengths year) short) in
    on_month-IsDateOf year days k _ first last e (rw (← split) whole) inside
      (rw (length-month_lengths (is_leap year)) at few)

within : (days : ℕ) → days < 2932897 → days_before_year 1970 + days < days_before_year 10000
unfolding days_before_year
within days h = omega arith

at_epoch : (days n : ℕ) → days_before_year 1970 + days ≡ n → 719162 + days ≡ n
unfolding days_before_year
at_epoch days n e = e

-- The date of a day up to the year 9999 is a date, and the days that it stands for are that day.
pub date_of-IsDateOf : (days : ℕ) → days < 2932897 → IsDateOf days (date_of days)
unfolding date_of
date_of-IsDateOf days h =
    let (whole, short, first, last) =
      year_from-days 8030 1970 days 10000 (omega arith) refl (within days h) in
    in_year-IsDateOf days (year_from 8030 1970 days) (at_epoch days _ whole) short first last

-- The month and the day of a date are within what two digits and the formats allow.
pub IsDateOf-bounds :
    (days : ℕ) (date : Date)
    → IsDateOf days date
    → (1 ≤ date.month) × (date.month < 13) × (1 ≤ date.day) × (date.day ≤ 31) × (date.year < 10000)
unfolding is_date
IsDateOf-bounds days date (valid, whole, last, few) = (
  by_month date.month refl,
  few,
  ground arith,
  ground (arith, days_in-le (month_lengths (is_leap date.year)) date.month (longest _)),
  last,
)
  where
    longest : (b : Bool) → all (λ n. leb n 31) (month_lengths b) ≡ true
    longest true = refl
    longest false = refl

    none_in : (lengths : List ℕ) → days_in lengths 0 ≡ 0
    none_in [] = refl
    none_in (n ∷ lengths) = refl

    by_month : (m : ℕ) → date.month ≡ m → 1 ≤ date.month
    by_month zero e =
        absurd (ground (arith, none_in (month_lengths (is_leap date.year)), rw e at valid))
    by_month (suc m) e = omega (arith, e)
