-- ===== src/Protocol/Interval.antt =====
-- protocol.py, `parse_interval` and `format_duration`.
pub mod Bounds
pub mod Reading
use sockpost.Common.{
  ℕ, ◌+◌, ◌*◌, ◌/◌, ◌%◌, ◌≡◌, Bool, true, false, List, [], ◌∷◌, ◌++◌, Option, none, some, ltb, ◌==◌,
  if◌then◌else◌, Text, codes, text_eq, text_instance,
}
use sockpost.Common.Dict.{Dict, get}
use sockpost.Common.Int.{ℤ, pos, negsuc}
use sockpost.Common.Result.{Result, ok, err}
use sockpost.Python.Space.{is_space, strip, strip_left, lower}
use sockpost.Python.Decimal.{digit, to_decimal}

abbrev pub max_interval_seconds : ℕ
max_interval_seconds = 365 * 86400

-- The units of `_INTERVAL_RE` and `_INTERVAL_UNITS`; no unit at all is seconds.
unfoldable pub interval_units : Dict Text ℕ
interval_units =
    (codes "", 1)
    ∷ (codes "s", 1)
    ∷ (codes "sec", 1)
    ∷ (codes "secs", 1)
    ∷ (codes "second", 1)
    ∷ (codes "seconds", 1)
    ∷ (codes "m", 60)
    ∷ (codes "min", 60)
    ∷ (codes "mins", 60)
    ∷ (codes "minute", 60)
    ∷ (codes "minutes", 60)
    ∷ (codes "h", 3600)
    ∷ (codes "hr", 3600)
    ∷ (codes "hrs", 3600)
    ∷ (codes "hour", 3600)
    ∷ (codes "hours", 3600)
    ∷ (codes "d", 86400)
    ∷ (codes "day", 86400)
    ∷ (codes "days", 86400)
    ∷ []

-- The messages of `ProtocolError`.
pub data IntervalError : Type 0 where
  empty_interval invalid_interval not_positive too_long : IntervalError

-- The run of digits that opens a text, as the value of `int`, whether there was one, and the rest.
-- The run is the longest: no unit begins with a digit.
pub leading_digits : Text → ℕ → Bool → ℕ × Bool × Text
leading_digits [] n seen = (n, seen, [])
leading_digits (c ∷ s) n seen = elim (digit c) [
  | some d ↦ leading_digits s (n * 10 + d) true
  | none ↦ (n, seen, c ∷ s)
]

check_seconds : ℕ → Result IntervalError ℕ
check_seconds seconds =
    if seconds == 0
    then err not_positive
    else if ltb max_interval_seconds seconds
    then err too_long
    else ok seconds

scaled : ℕ → Option ℕ → Result IntervalError ℕ
unfolding check_seconds
scaled amount none = err invalid_interval
scaled amount (some unit) = check_seconds (amount * unit)

-- `(\d+)\s*(unit)?$`. The text is stripped, so `$` stands at its end.
match_interval : ℕ × Bool × Text → Result IntervalError ℕ
unfolding scaled interval_units
match_interval (amount, false, rest) = err invalid_interval
match_interval (amount, true, rest) = scaled amount (get (strip_left rest) interval_units)

unfoldable pub parse_interval : Option Text → Result IntervalError ℕ
unfolding leading_digits match_interval
parse_interval none = err empty_interval
parse_interval (some value) = match_interval (leading_digits (lower (strip value)) 0 false)

-- "%02d" of a number below 100
unfoldable pub two_digits : ℕ → Text
two_digits n = (b'0' + n / 10) ∷ (b'0' + n % 10) ∷ []

-- "%d<unit>", or "%d<unit>%02d<small>" where the smaller count is not zero
pub with_rest : ℕ → Text → ℕ → Text → Text
unfolding two_digits
with_rest n unit rest small =
    if rest == 0 then to_decimal n ++ unit else to_decimal n ++ (unit ++ (two_digits rest ++ small))

format_seconds : ℕ → Text
format_seconds seconds =
    if ltb seconds 60
    then to_decimal seconds ++ codes "s"
    else if ltb seconds 3600
    then to_decimal (seconds / 60) ++ codes "m"
    else if ltb seconds 86400
    then with_rest (seconds / 3600) (codes "h") (seconds % 3600 / 60) (codes "m")
    else with_rest (seconds / 86400) (codes "d") (seconds % 86400 / 3600) (codes "h")

-- The argument is `int(seconds)`, and `none` where that raises.
unfoldable pub format_duration : Option ℤ → Text
unfolding format_seconds
format_duration none = codes "unknown"
format_duration (some (pos seconds)) = format_seconds seconds
format_duration (some (negsuc seconds)) = format_seconds 0
