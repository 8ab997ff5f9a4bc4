-- ===== src/Protocol/Timestamp/Reading.antt =====
-- `parse_iso` reads what `iso_at` prints.
use sockpost.Common.{
  ℕ, ◌+◌, ◌*◌, ◌/◌, ◌%◌, ◌≤◌, ◌<◌, ◌≡◌, refl, ap, Bool, true, false, ◌||◌, [], ◌∷◌, ◌++◌, none,
  some, arith, ltb, ◌==◌, Text, Bool-cases, inl, inr,
}
use sockpost.Python.Decimal.{digit-ascii}
use sockpost.Protocol.Timestamp.Calendar.{
  Date, date_of, days_of, IsDateOf, date_of-IsDateOf, IsDateOf-bounds,
}
use sockpost.Protocol.Interval.{two_digits}
use sockpost.Protocol.Timestamp.{
  clock_text, stamp_text, end_of_time, iso_at, field, between, tens, month_field, day_field,
  hour_field, sixty_field, year_field, clock_of, strptime, parse_iso, dated, epoch_start,
}

-- A field of two digits ends at the character behind it.
field-two_digits :
    (ends : ℕ → Bool) (n e : ℕ) (rest : Text)
    → ((d : ℕ) → d < 10 → ends (b'0' + d) ≡ false)
    → ends e ≡ true
    → n < 100
    → field ends (two_digits n ++ e ∷ rest) ≡ some (two_digits n, rest)
unfolding field two_digits
field-two_digits ends n e rest digits stop h =
    rw (field, digits (n / 10) (omega arith), digits (n % 10) (omega arith), stop) refl

month_field-two_digits : (n : ℕ) → 1 ≤ n → n < 13 → month_field (two_digits n) ≡ some n
unfolding month_field two_digits between tens
month_field-two_digits n h k = ground arith

day_field-two_digits : (n : ℕ) → 1 ≤ n → n ≤ 31 → day_field (two_digits n) ≡ some n
unfolding day_field two_digits between tens
day_field-two_digits n h k = ground (arith, digit-ascii (n % 10))

hour_field-two_digits : (n : ℕ) → n < 24 → hour_field (two_digits n) ≡ some n
unfolding hour_field two_digits between tens
hour_field-two_digits n h = ground (arith, digit-ascii (n % 10))

sixty_field-two_digits : (n : ℕ) → n < 60 → sixty_field (two_digits n) ≡ some n
unfolding sixty_field two_digits tens
sixty_field-two_digits n h = ground (arith, digit-ascii (n % 10))

year_field-two_digits :
    (n : ℕ) (rest : Text)
    → n < 10000
    → year_field (two_digits (n / 100) ++ (two_digits (n % 100) ++ b'-' ∷ rest)) ≡ some (n, rest)
unfolding year_field two_digits
year_field-two_digits n rest h = ground (
  arith,
  digit-ascii (n / 100 / 10),
  digit-ascii (n / 100 % 10),
  digit-ascii (n % 100 / 10),
  digit-ascii (n % 100 % 10),
)

clock_of-clock_text : (s : ℕ) → s < 86400 → clock_of (clock_text s) ≡ some s
unfolding clock_of clock_text
clock_of-clock_text s h =
    rw
      (
        clock_of,
        field-two_digits (λ c. c == b':') (s / 3600) b':'
            (two_digits (s / 60 % 60) ++ (b':' ∷ (two_digits (s % 60) ++ (b'Z' ∷ []))))
            (λ d k. ground arith) refl (omega arith),
        hour_field-two_digits (s / 3600) (omega arith),
        field-two_digits (λ c. c == b':') (s / 60 % 60) b':' (two_digits (s % 60) ++ (b'Z' ∷ []))
            (λ d k. ground arith) refl (omega arith),
        sixty_field-two_digits (s / 60 % 60) (omega arith),
        field-two_digits (λ c. c == b'Z' || c == b'z') (s % 60) b'Z' [] (λ d k. ground arith) refl
            (omega arith),
        sixty_field-two_digits (s % 60) (omega arith),
      )
      (ap some (omega arith))

strptime-stamp_text :
    (days s : ℕ) (date : Date)
    → IsDateOf days date
    → s < 86400
    → strptime (stamp_text date s) ≡ some (days_of date * 86400 + s)
unfolding strptime stamp_text dated
strptime-stamp_text days s date h k =
    let (m1, m2, d1, d2, y) = IsDateOf-bounds days date h in
    rw
      (
        strptime,
        year_field-two_digits date.year
            (two_digits date.month ++ (b'-' ∷ (two_digits date.day ++ (b'T' ∷ clock_text s)))) y,
        field-two_digits (λ c. c == b'-') date.month b'-'
            (two_digits date.day ++ (b'T' ∷ clock_text s)) (λ d k. ground arith) refl (omega arith),
        month_field-two_digits date.month m1 m2,
        field-two_digits (λ c. c == b'T' || c == b't') date.day b'T' (clock_text s)
            (λ d k. ground arith) refl (omega arith),
        day_field-two_digits date.day d1 d2,
        clock_of-clock_text s k,
        h.0,
      )
      refl

stamp_text-cons :
    (date : Date) (s : ℕ) → parse_iso (some (stamp_text date s)) ≡ strptime (stamp_text date s)
unfolding parse_iso stamp_text two_digits
stamp_text-cons date s = refl

day_within : (epoch : ℕ) → ltb epoch end_of_time ≡ true → epoch / 86400 < 2932897
day_within epoch h = let less : epoch < end_of_time = ground arith in omega (arith, less)

rejoin :
    (epoch days : ℕ)
    → 719162 + epoch / 86400 ≡ days
    → days * 86400 + epoch % 86400 ≡ epoch + epoch_start
rejoin epoch days e = omega (arith, e)

second_within : (epoch : ℕ) → epoch % 86400 < 86400
second_within epoch = omega arith

-- A time that `iso_at` prints is read back by `parse_iso` as that time, to the second.
pub parse_iso-iso_at :
    (epoch : ℕ) (printed : Text)
    → iso_at epoch ≡ some printed
    → parse_iso (some printed) ≡ some (epoch + epoch_start)
unfolding iso_at
parse_iso-iso_at epoch printed h = elim (Bool-cases (ltb epoch end_of_time)) [
  | inl e ↦
      let same : stamp_text (date_of (epoch / 86400)) (epoch % 86400) ≡ printed =
        some-inj (rw e at h) in
      let is_date_of : IsDateOf (epoch / 86400) (date_of (epoch / 86400)) =
        date_of-IsDateOf (epoch / 86400) (day_within epoch e) in
      let (valid, whole, last, few) = is_date_of in
      rw
        (
          ← same,
          stamp_text-cons (date_of (epoch / 86400)) (epoch % 86400),
          strptime-stamp_text (epoch / 86400) (epoch % 86400) (date_of (epoch / 86400)) is_date_of
              (second_within epoch),
        )
        (ap some (rejoin epoch _ whole))
  | inr e ↦ absurd (none-some (rw e at h))
]
  where
    none-some : none ≡ some printed → ⊥
    none-some q = cc

    some-inj : {s t : Text} → some s ≡ some t → s ≡ t
    some-inj q = cc
