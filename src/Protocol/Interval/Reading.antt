-- ===== src/Protocol/Interval/Reading.antt =====
-- What `parse_interval` makes of a number with a unit, and of a printed duration.
use sockpost.Common.{
  ℕ, ◌+◌, ◌-◌, ◌*◌, ◌/◌, ◌<◌, ◌≡◌, ◌≢◌, refl, Bool, true, false, ◌&&◌, ◌||◌, [], ◌∷◌, ◌++◌, none,
  some, arith, leb, ltb, ◌==◌, if◌then◌else◌, Text, codes, all, any, text_eq, text_eq_iff,
  text_instance,
}
use sockpost.Common.Dict.{Dict, get}
use sockpost.Common.Int.{pos}
use sockpost.Common.Result.{Result, ok, err}
use sockpost.Python.Space.{is_space, lower, strip_none, strip_left_none}
use sockpost.Python.Decimal.{
  digit, to_decimal, is_ascii_digit, to_decimal-digits, is_space-digit, digit-is_ascii_digit,
  digit-none, value_from, value_from-to_decimal, to_decimal-ne-nil,
}
use sockpost.Protocol.Interval.{
  max_interval_seconds, interval_units, IntervalError, not_positive, too_long, leading_digits,
  check_seconds, scaled, match_interval, parse_interval, format_duration,
}

-- What holds of every unit in the table: lower case letters only.
abbrev is_letter : ℕ → Bool
is_letter c = leb b'a' c && leb c b'z'

get-all :
    (p : Text → Bool) (d : Dict Text ℕ) (u : Text) (k : ℕ)
    → all (λ e. p e.0) d ≡ true
    → get u d ≡ some k
    → p u ≡ true
unfolding get
get-all p [] u k h e = cc
get-all p ((v, n) ∷ d) u k h e = ground (arith, text_eq_iff v u, get-all p d u k)

unit-letters : (u : Text) (k : ℕ) → get u interval_units ≡ some k → all is_letter u ≡ true
unfolding interval_units
unit-letters u k e = get-all (all is_letter) interval_units u k refl e

is_space-letter : (c : ℕ) → is_letter c ≡ true → is_space c ≡ false
unfolding is_space
is_space-letter c h = ground arith

-- A digit that `\d` matches, or a lower case letter.
abbrev is_plain : ℕ → Bool
is_plain c = is_ascii_digit c || is_letter c

plain-no_space : (s : Text) → all is_plain s ≡ true → any is_space s ≡ false
plain-no_space [] h = refl
plain-no_space (c ∷ s) h = ground (arith, is_space-digit c, is_space-letter c, plain-no_space s)

lower-plain : (s : Text) → all is_plain s ≡ true → lower s ≡ s
unfolding lower
lower-plain [] h = refl
lower-plain (c ∷ s) h = ground (arith, lower-plain s)

letters-plain : (s : Text) → all is_letter s ≡ true → all is_plain s ≡ true
letters-plain [] h = refl
letters-plain (c ∷ s) h = ground (arith, letters-plain s)

digits-plain :
    (s t : Text)
    → all is_ascii_digit s ≡ true
    → all is_plain t ≡ true
    → all is_plain (s ++ t) ≡ true
digits-plain [] t h k = k
digits-plain (c ∷ s) t h k = ground (arith, digits-plain s t)

leading_digits-append :
    (s t : Text) (n : ℕ)
    → all is_ascii_digit s ≡ true
    → leading_digits (s ++ t) n true ≡ leading_digits t (value_from n s) true
unfolding leading_digits value_from
leading_digits-append [] t n h = refl
leading_digits-append (c ∷ s) t n h =
    ground (arith, digit-is_ascii_digit c, leading_digits-append s t (n * 10 + (c - b'0')))

leading_digits-first :
    (s t : Text)
    → s ≢ []
    → all is_ascii_digit s ≡ true
    → leading_digits (s ++ t) 0 false ≡ leading_digits t (value_from 0 s) true
unfolding leading_digits value_from
leading_digits-first [] t k h = absurd (k refl)
leading_digits-first (c ∷ s) t k h =
    ground (arith, digit-is_ascii_digit c, leading_digits-append s t (0 * 10 + (c - b'0')))

digit-letter : (c : ℕ) → is_letter c ≡ true → digit c ≡ none
digit-letter c h = digit-none c (ground arith) (ground arith)

leading_digits-letters :
    (u : Text) (n : ℕ) → all is_letter u ≡ true → leading_digits u n true ≡ (n, true, u)
unfolding leading_digits
leading_digits-letters [] n h = refl
leading_digits-letters (c ∷ u) n h =
    let e : digit c ≡ none = digit-letter c (ground arith) in rw (leading_digits, e)

-- The interval that a number of units stands for, or the reason why it is refused.
abbrev pub interval_of : ℕ → Result IntervalError ℕ
interval_of seconds =
    if seconds == 0
    then err not_positive
    else if ltb max_interval_seconds seconds
    then err too_long
    else ok seconds

-- A decimal number followed by a unit of the table is that many times the unit, or is refused for being
-- zero or more than a year.
pub parse_interval-to_decimal :
    (n k : ℕ) (u : Text)
    → get u interval_units ≡ some k
    → parse_interval (some (to_decimal n ++ u)) ≡ interval_of (n * k)
unfolding parse_interval match_interval scaled check_seconds
parse_interval-to_decimal n k u e =
    let l = unit-letters u k e in
    let p = digits-plain (to_decimal n) u (to_decimal-digits n) (letters-plain u l) in
    rw (
      strip_none _ (plain-no_space _ p),
      lower-plain _ p,
      leading_digits-first (to_decimal n) u (to_decimal-ne-nil n) (to_decimal-digits n),
      value_from-to_decimal n,
      leading_digits-letters u n l,
      strip_left_none u (plain-no_space u (letters-plain u l)),
      e,
    )

-- A duration below one hour is printed in a form that `parse_interval` reads, as the same duration
-- rounded down to the unit shown.
pub parse_interval-format_duration :
    (n : ℕ)
    → 0 < n
    → n < 3600
    → parse_interval (some (format_duration (some (pos n))))
      ≡ ok (if ltb n 60 then n else n / 60 * 60)
unfolding format_duration
parse_interval-format_duration n h k = ground (
  arith,
  parse_interval-to_decimal n 1 (codes "s") (unfold get interval_units text_eq in refl),
  parse_interval-to_decimal (n / 60) 60 (codes "m") (unfold get interval_units text_eq in refl),
)
