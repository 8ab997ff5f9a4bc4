-- ===== src/Tests/Timestamps.antt =====
-- Time stamps of protocol.py on concrete inputs.
use sockpost.Common.{◌+◌, ◌≡◌, refl, some, none, codes, text_lt, ltb}
use sockpost.Python.Decimal.{digit}
use sockpost.Protocol.Interval.{two_digits}
use sockpost.Protocol.Timestamp.Calendar.{
  date_of, year_from, month_from, month_lengths, is_leap, year_length, is_date, days_of, days_in,
  days_before, days_before_year,
}
use sockpost.Protocol.Timestamp.{
  stamp_text, clock_text, iso_at, parse_iso, strptime, clock_of, field, epoch_start,
}
use sockpost.Protocol.Timestamp.Reading.{parse_iso-iso_at}
use sockpost.Protocol.Timestamp.Order.{text_lt-iso_at}

printed_stamp : iso_at 1769903940 ≡ some (codes "2026-01-31T23:59:00Z")
unfolding iso_at date_of year_from month_from month_lengths is_leap year_length stamp_text
    clock_text two_digits
printed_stamp = refl

leap_stamp : iso_at 1709164800 ≡ some (codes "2024-02-29T00:00:00Z")
unfolding iso_at date_of year_from month_from month_lengths is_leap year_length stamp_text
    clock_text two_digits
leap_stamp = refl

no_such_day : parse_iso (some (codes "2023-02-29T00:00:00Z")) ≡ none
unfolding parse_iso strptime clock_of field digit is_date days_of days_in days_before
    days_before_year month_lengths is_leap
no_such_day = refl

short_fields : parse_iso (some (codes "1970-1-1t0:0:7z")) ≡ some (epoch_start + 7)
unfolding parse_iso strptime clock_of field digit is_date days_of days_in days_before
    days_before_year month_lengths is_leap
short_fields = refl

parse_iso-iso_at_example :
    parse_iso (some (codes "2026-01-31T23:59:00Z")) ≡ some (1769903940 + epoch_start)
parse_iso-iso_at_example = parse_iso-iso_at 1769903940 (codes "2026-01-31T23:59:00Z") printed_stamp

text_lt-iso_at_example :
    text_lt (codes "2024-02-29T00:00:00Z") (codes "2026-01-31T23:59:00Z")
    ≡ ltb 1709164800 1769903940
text_lt-iso_at_example =
    text_lt-iso_at 1709164800 1769903940 (codes "2024-02-29T00:00:00Z")
      (codes "2026-01-31T23:59:00Z") leap_stamp printed_stamp
