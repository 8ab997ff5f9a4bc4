-- ===== src/Protocol/Timestamp/Order.antt =====
-- The order of time stamps as texts, by which store.py compares them.
use sockpost.Common.{
  ℕ, ◌/◌, ◌%◌, ◌≤◌, ◌<◌, ◌≡◌, refl, sym, ◌∙◌, true, false, [], ◌∷◌, ◌++◌, none, some, arith, ltb,
  ◌==◌, Text, Bool-cases, inl, inr, ◌⊎◌, text_lt,
}
use sockpost.Protocol.Timestamp.Calendar.{
  Date, date_of, days_of, IsDateOf, date_of-IsDateOf, IsDateOf-bounds,
}
use sockpost.Protocol.Timestamp.Calendar.Order.{year_mono, month_mono, day_mono}
use sockpost.Protocol.Interval.{two_digits}
use sockpost.Protocol.Timestamp.{clock_text, stamp_text, end_of_time, iso_at}

text_lt_irrefl : (s : Text) → text_lt s s ≡ false
unfolding text_lt
text_lt_irrefl [] = refl
text_lt_irrefl (c ∷ s) = ground (arith, text_lt_irrefl s)

text_lt_asym : (s t : Text) → text_lt s t ≡ true → text_lt t s ≡ false
unfolding text_lt
text_lt_asym s [] h = absurd cc
text_lt_asym [] (d ∷ t) h = refl
text_lt_asym (c ∷ s) (d ∷ t) h = ground (arith, text_lt_asym s t)

-- Two digits of a smaller number come first, and two of the same number leave it to the rest.
text_lt-smaller :
    (n m : ℕ) (s t : Text)
    → n < m
    → m < 100
    → text_lt (two_digits n ++ s) (two_digits m ++ t) ≡ true
unfolding text_lt two_digits
text_lt-smaller n m s t h k = ground arith

text_lt-same : (n : ℕ) (s t : Text) → text_lt (two_digits n ++ s) (two_digits n ++ t) ≡ text_lt s t
unfolding text_lt two_digits
text_lt-same n s t = ground arith

text_lt-cons : (c : ℕ) (s t : Text) → text_lt (c ∷ s) (c ∷ t) ≡ text_lt s t
unfolding text_lt
text_lt-cons c s t = ground arith

text_lt-step :
    (n m : ℕ) (s t : Text)
    → n ≤ m
    → m < 100
    → (n ≡ m → text_lt s t ≡ true)
    → text_lt (two_digits n ++ s) (two_digits m ++ t) ≡ true
text_lt-step n m s t h k rest = elim (Bool-cases (n == m)) [
  | inl e ↦ let same : n ≡ m = ground arith in rw (← same) (text_lt-same n s t ∙ rest same)
  | inr e ↦ text_lt-smaller n m s t (ground arith) k
]

clock_text-lt : (a b : ℕ) → a < b → b < 86400 → text_lt (clock_text a) (clock_text b) ≡ true
unfolding clock_text
clock_text-lt a b h k = text_lt-step (a / 3600) (b / 3600) _ _ (omega arith) (omega arith) (λ e.
    text_lt-cons b':' _ _
    ∙ text_lt-step (a / 60 % 60) (b / 60 % 60) _ _ (omega (arith, e)) (omega arith) (λ f.
      text_lt-cons b':' _ _
      ∙ text_lt-smaller (a % 60) (b % 60) _ _ (omega (arith, e, f)) (omega arith)))

module _ (x y s t : ℕ) (d e : Date) (of_d : IsDateOf x d) (of_e : IsDateOf y e) (h : x ≤ y)
    (clocks : x ≡ y → text_lt (clock_text s) (clock_text t) ≡ true) where
  same_day : d.year ≡ e.year → d.month ≡ e.month → d.day ≡ e.day → x ≡ y
  unfolding days_of
  same_day p q r = omega (arith, of_d.1, rw (← p, ← q, ← r) at of_e.1)

  stamp_text-lt : text_lt (stamp_text d s) (stamp_text e t) ≡ true
  unfolding stamp_text
  stamp_text-lt =
      let (m1, m2, d1, d2, last) = IsDateOf-bounds y e of_e in
      let years : d.year ≤ e.year = year_mono x y d e of_d of_e h in
      text_lt-step (d.year / 100) (e.year / 100) _ _ (omega (arith, years)) (omega (arith, last))
        (λ c.
          text_lt-step (d.year % 100) (e.year % 100) _ _ (omega (arith, years, c)) (omega arith)
            (λ u.
              let same : d.year ≡ e.year = omega (arith, c, u) in
              text_lt-cons b'-' _ _
              ∙ text_lt-step d.month e.month _ _ (month_mono x y d e of_d of_e h same)
                  (omega (arith, m2))
                  (λ q.
                    text_lt-cons b'-' _ _
                    ∙ text_lt-step d.day e.day _ _ (day_mono x y d e of_d of_e h same q)
                        (omega (arith, d2))
                        (λ r. text_lt-cons b'T' _ _ ∙ clocks (same_day same q r)))))

stamp_of : ℕ → Text
stamp_of n = stamp_text (date_of (n / 86400)) (n % 86400)

stamp_of-lt : (a b : ℕ) → a < b → b < end_of_time → text_lt (stamp_of a) (stamp_of b) ≡ true
unfolding stamp_of
stamp_of-lt a b h k =
    stamp_text-lt (a / 86400) (b / 86400) (a % 86400) (b % 86400) (date_of (a / 86400))
      (date_of (b / 86400)) (date_of-IsDateOf (a / 86400) (omega arith))
      (date_of-IsDateOf (b / 86400) (omega arith)) (omega arith)
      (λ e. clock_text-lt (a % 86400) (b % 86400) (omega (arith, e)) (omega arith))

ltb-lt : (n m : ℕ) → ltb n m ≡ true → n < m
ltb-lt n m e = ground arith

iso_at-stamp : (n : ℕ) (s : Text) → iso_at n ≡ some s → (n < end_of_time) × (s ≡ stamp_of n)
unfolding iso_at stamp_of
iso_at-stamp n s h = elim (Bool-cases (ltb n end_of_time)) [
  | inl e ↦ (ltb-lt n end_of_time e, sym (some-inj (rw e at h)))
  | inr e ↦ absurd (none-some (rw e at h))
]
  where
    none-some : none ≡ some s → ⊥
    none-some q = cc

    some-inj : {s t : Text} → some s ≡ some t → s ≡ t
    some-inj q = cc

less_true : (a b : ℕ) → a < b → ltb a b ≡ true
less_true a b h = ground arith

not_less : (a b : ℕ) → b ≤ a → ltb a b ≡ false
not_less a b h = ground arith

compare_cases : (a b : ℕ) → (a < b) ⊎ (a ≡ b) ⊎ (b < a)
compare_cases a b = elim (Bool-cases (ltb a b)) [
  | inl e ↦ inl (ground arith)
  | inr e ↦ elim (Bool-cases (a == b)) [
    | inl f ↦ inr (inl (ground arith))
    | inr f ↦ inr (inr (ground arith))
  ]
]

-- The order of two time stamps that `iso_at` prints, as texts, is that of the times.
pub text_lt-iso_at :
    (a b : ℕ) (s t : Text) → iso_at a ≡ some s → iso_at b ≡ some t → text_lt s t ≡ ltb a b
text_lt-iso_at a b s t p q =
    let (a_end, s_is) = iso_at-stamp a s p in
    let (b_end, t_is) = iso_at-stamp b t q in rw (s_is, t_is) (by_order a b a_end b_end)
  where
    by_order :
        (a b : ℕ) → a < end_of_time → b < end_of_time → text_lt (stamp_of a) (stamp_of b) ≡ ltb a b
    by_order a b h k = elim (compare_cases a b) [
      | inl less ↦ stamp_of-lt a b less k ∙ sym (less_true a b less)
      | inr (inl e) ↦ rw e (text_lt_irrefl (stamp_of b) ∙ sym (not_less b b (omega arith)))
      | inr (inr more) ↦
          text_lt_asym (stamp_of b) (stamp_of a) (stamp_of-lt b a more h)
          ∙ sym (not_less a b (omega (arith, more)))
    ]
