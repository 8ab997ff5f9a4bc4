-- ===== src/Protocol/Timestamp.antt =====
-- protocol.py, `iso_at`, `parse_iso` and `age_seconds`, with what they use of Python's `datetime`.
pub mod Calendar
pub mod Reading
pub mod Order
use sockpost.Common.{
  ℕ, zero, suc, ◌+◌, ◌-◌, ◌*◌, ◌/◌, ◌%◌, Bool, true, false, not, ◌&&◌, ◌||◌, List, [], ◌∷◌, ◌++◌,
  Option, none, some, ◌>>=◌, ltb, leb, ◌==◌, if◌then◌else◌, Text, codes,
}
use sockpost.Common.Int.{ℤ, pos, negated}
use sockpost.Python.Decimal.{digit}
use sockpost.Protocol.Interval.{two_digits}
use sockpost.Protocol.Timestamp.Calendar.{
  days_before_year, is_leap, month_lengths, Date, date_of, days_of, is_date,
}

-- TIMESTAMP_FORMAT, behind the date
unfoldable pub clock_text : ℕ → Text
unfolding two_digits
clock_text s =
    two_digits (s / 3600)
    ++ (b':' ∷ (two_digits (s / 60 % 60) ++ (b':' ∷ (two_digits (s % 60) ++ (b'Z' ∷ [])))))

-- TIMESTAMP_FORMAT
unfoldable pub stamp_text : Date → ℕ → Text
unfolding clock_text
stamp_text date s =
    two_digits (date.year / 100)
    ++ (two_digits (date.year % 100)
        ++ (b'-'
            ∷ (two_digits date.month ++ (b'-' ∷ (two_digits date.day ++ (b'T' ∷ clock_text s))))))

-- The first second of the year 10000.
abbrev pub end_of_time : ℕ
end_of_time = 253402300800

-- `iso_at` of a time in whole seconds from 1970 on; a ValueError from the year 10000 on.
unfoldable pub iso_at : ℕ → Option Text
unfolding date_of stamp_text
iso_at epoch =
    if ltb epoch end_of_time
    then some (stamp_text (date_of (epoch / 86400)) (epoch % 86400))
    else none

-- What stands before the first character that ends a field, and what behind it.
unfoldable pub field : (ℕ → Bool) → Text → Option (Text × Text)
field ends [] = none
field ends (c ∷ s) = elim (ends c) [
  | true ↦ some ([], s)
  | false ↦ do (before, rest) ← field ends s; some (c ∷ before, rest)
]

pub between : ℕ → ℕ → ℕ → Option ℕ
between lo hi c = if leb lo c && leb c hi then some (c - b'0') else none

pub tens : ℕ → Option ℕ → Option ℕ
tens t units = do u ← units; some (t * 10 + u)

-- 1[0-2]|0[1-9]|[1-9]
pub month_field : Text → Option ℕ
unfolding between tens
month_field (c ∷ []) = between b'1' b'9' c
month_field (c ∷ d ∷ []) =
    if c == b'1'
    then tens 1 (between b'0' b'2' d)
    else if c == b'0'
    then between b'1' b'9' d
    else none
month_field _ = none

-- 3[0-1]|[1-2]\d|0[1-9]|[1-9]| [1-9]
pub day_field : Text → Option ℕ
unfolding between tens
day_field (c ∷ []) = between b'1' b'9' c
day_field (c ∷ d ∷ []) =
    if c == b'3'
    then tens 3 (between b'0' b'1' d)
    else if c == b'1' || c == b'2'
    then tens (c - b'0') (digit d)
    else if c == b'0' || c == b' '
    then between b'1' b'9' d
    else none
day_field _ = none

-- 2[0-3]|[0-1]\d|\d
pub hour_field : Text → Option ℕ
unfolding between tens
hour_field (c ∷ []) = digit c
hour_field (c ∷ d ∷ []) =
    if c == b'2'
    then tens 2 (between b'0' b'3' d)
    else if c == b'0' || c == b'1'
    then tens (c - b'0') (digit d)
    else none
hour_field _ = none

-- [0-5]\d|\d: of `%S` too, whose 60 and 61 are no second of a `datetime`.
pub sixty_field : Text → Option ℕ
unfolding tens
sixty_field (c ∷ []) = digit c
sixty_field (c ∷ d ∷ []) = if leb b'0' c && leb c b'5' then tens (c - b'0') (digit d) else none
sixty_field _ = none

-- \d\d\d\d, and the dash behind it
pub year_field : Text → Option (ℕ × Text)
year_field (a ∷ b ∷ c ∷ d ∷ e ∷ s) = do
  y3 ← digit a
  y2 ← digit b
  y1 ← digit c
  y0 ← digit d
  if e == b'-' then some (y3 * 1000 + y2 * 100 + y1 * 10 + y0, s) else none
year_field _ = none

unfoldable pub clock_of : Text → Option ℕ
unfolding field hour_field sixty_field
clock_of s = do
  (hour_text, s) ← field (λ c. c == b':') s
  hour ← hour_field hour_text
  (minute_text, s) ← field (λ c. c == b':') s
  minute ← sixty_field minute_text
  (second_text, s) ← field (λ c. c == b'Z' || c == b'z') s
  second ← sixty_field second_text
  elim s [ [] ↦ some (hour * 3600 + minute * 60 + second) | c ∷ rest ↦ none ]

pub dated : Date → ℕ → Option ℕ
unfolding days_of is_date
dated date clock = if is_date date then some (days_of date * 86400 + clock) else none

-- A `datetime` is counted in seconds from the start of the year 1.
unfoldable pub strptime : Text → Option ℕ
unfolding year_field month_field day_field clock_of dated
strptime s = do
  (year, s) ← year_field s
  (month_text, s) ← field (λ c. c == b'-') s
  month ← month_field month_text
  (day_text, s) ← field (λ c. c == b'T' || c == b't') s
  day ← day_field day_text
  clock ← clock_of s
  dated (record { year = year; month = month; day = day }) clock

-- `parse_iso`
unfoldable pub parse_iso : Option Text → Option ℕ
unfolding strptime
parse_iso none = none
parse_iso (some []) = none
parse_iso (some (c ∷ s)) = strptime (c ∷ s)

-- The seconds from the start of the year 1 to that of 1970.
abbrev pub epoch_start : ℕ
epoch_start = 719162 * 86400

difference : ℕ → ℕ → ℤ
difference later earlier =
    if leb earlier later then pos (later - earlier) else negated (earlier - later)

-- `age_seconds` at a time in whole seconds. `format_duration` of a fraction more is the same.
unfoldable pub age_seconds : ℕ → Option Text → Option ℤ
unfolding difference
age_seconds now value = do parsed ← parse_iso value; some (difference (now + epoch_start) parsed)
