-- ===== src/Protocol/Interval/Bounds.antt =====
-- `parse_interval`: the range of its results, and its value on a number and a unit.
use sockpost.Common.{
  ℕ, ◌*◌, ◌≤◌, ◌≡◌, Bool, true, false, Option, none, some, arith, Text, text_instance,
}
use sockpost.Common.Result.{ok}
use sockpost.Protocol.Interval.{
  max_interval_seconds, check_seconds, scaled, match_interval, parse_interval,
}

check_seconds_bounds : (n r : ℕ) → check_seconds n ≡ ok r → (1 ≤ r) × (r ≤ max_interval_seconds)
unfolding check_seconds
check_seconds_bounds n r h = ground arith

scaled_bounds :
    (n r : ℕ) (unit : Option ℕ) → scaled n unit ≡ ok r → (1 ≤ r) × (r ≤ max_interval_seconds)
unfolding scaled
scaled_bounds n r none h = cc
scaled_bounds n r (some unit) h = check_seconds_bounds (n * unit) r h

match_interval_bounds :
    (m : ℕ × Bool × Text) (r : ℕ) → match_interval m ≡ ok r → (1 ≤ r) × (r ≤ max_interval_seconds)
unfolding match_interval
match_interval_bounds (n, false, rest) r h = cc
match_interval_bounds (n, true, rest) r h = scaled_bounds n r _ h

-- An accepted interval is at least one second and at most one year.
pub parse_interval_bounds :
    (value : Option Text) (r : ℕ)
    → parse_interval value ≡ ok r
    → (1 ≤ r) × (r ≤ max_interval_seconds)
unfolding parse_interval
parse_interval_bounds none r h = cc
parse_interval_bounds (some value) r h = match_interval_bounds _ r h
