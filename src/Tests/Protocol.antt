-- ===== src/Tests/Protocol.antt =====
-- protocol.py on concrete inputs.
use sockpost.Common.{
  ◌*◌, ◌≡◌, ◌≢◌, ◌↔◌, refl, true, ◌++◌, none, some, arith, codes, all, text_eq, if◌then◌else◌, ltb,
  ◌/◌,
}
use sockpost.Common.Dict.{get, put}
use sockpost.Common.Int.{pos}
use sockpost.Common.Result.{ok, err}
use sockpost.Python.Space.{strip, strip_left, lower, is_space}
use sockpost.Python.Decimal.{to_decimal, digit, int_text}
use sockpost.Python.Json.{loads_text}
use sockpost.Python.Value.{text, null, to_text}
use sockpost.Protocol.Channel.{validate_channel, IsChannel, channel_re, invalid_channel}
use sockpost.Protocol.Channel.Exact.{validate_channel_iff, validate_channel-is_inert, is_inert}
use sockpost.Protocol.Forward.{forward_body, split_forward, forward_hops}
use sockpost.Protocol.Forward.RoundTrip.{
  provenance, split_forward-forward_body, forward_hops-forward_body,
}
use sockpost.Protocol.Interval.{parse_interval, format_duration, interval_units}
use sockpost.Protocol.Interval.Reading.{
  interval_of, parse_interval-to_decimal, parse_interval-format_duration,
}

worker_valid : validate_channel (text (codes " worker-1\n")) ≡ ok (codes "worker-1")
unfolding validate_channel channel_re strip to_text is_space
worker_valid = refl

two_lines_invalid : validate_channel (text (codes "a\nqueued msg_id=1")) ≡ err invalid_channel
unfolding validate_channel channel_re strip to_text is_space
two_lines_invalid = refl

validate_channel_iff_example : (validate_channel (text (codes "w 1")) ≡ ok (codes "w")) ↔ (
    (text (codes "w 1") ≢ null)
    × (codes "w" ≡ strip (to_text (text (codes "w 1"))))
    × IsChannel (codes "w"))
validate_channel_iff_example = validate_channel_iff (text (codes "w 1")) (codes "w")

validate_channel-is_inert_example : all is_inert (codes "worker-1") ≡ true
validate_channel-is_inert_example =
    validate_channel-is_inert (text (codes " worker-1\n")) (codes "worker-1") worker_valid

split_forward-forward_body_example :
    split_forward (
      forward_body
        (codes "line 1\nline 2")
        (codes "planner")
        (codes "worker")
        7
        (codes "2026-01-31T18:04:11Z")
        2
        (some (codes "say \"hops=9\"\n")))
    ≡ (
      some (
          provenance
            (codes "planner")
            (codes "worker")
            7
            (codes "2026-01-31T18:04:11Z")
            2
            (some (codes "say \"hops=9\"\n"))),
      codes "line 1\nline 2",
    )
split_forward-forward_body_example =
    split_forward-forward_body (codes "planner") (codes "worker") 7 (codes "2026-01-31T18:04:11Z") 2
      (some (codes "say \"hops=9\"\n")) (codes "line 1\nline 2")

forward_hops-forward_body_example :
    forward_hops (
      forward_body
        (codes "x")
        (codes "planner")
        (codes "worker")
        7
        (codes "2026-01-31T18:04:11Z")
        2
        none)
    ≡ some 2
forward_hops-forward_body_example =
    forward_hops-forward_body (codes "planner") (codes "worker") 7 (codes "2026-01-31T18:04:11Z") 2
      none (codes "x")

-- A header with no readable counter is not an original.
no_counter : forward_hops (codes "#sockpost/forward v=1 hops=many\nx") ≡ none
unfolding forward_hops int_text strip digit get put is_space text_eq loads_text
no_counter = refl

prose : forward_hops (codes "#sockpost/forwarding my thoughts") ≡ some 0
unfolding forward_hops int_text strip digit get put is_space text_eq loads_text
prose = refl

ten_minutes : parse_interval (some (codes " 10 MIN")) ≡ ok 600
unfolding parse_interval digit lower strip strip_left get text_eq
ten_minutes = refl

parse_interval-to_decimal_example :
    parse_interval (some (to_decimal 36 ++ codes "hrs")) ≡ interval_of (36 * 3600)
unfolding get text_eq interval_units
parse_interval-to_decimal_example = parse_interval-to_decimal 36 3600 (codes "hrs") refl

parse_interval-format_duration_example :
    parse_interval (some (format_duration (some (pos 750))))
    ≡ ok (if ltb 750 60 then 750 else 750 / 60 * 60)
parse_interval-format_duration_example =
    parse_interval-format_duration 750 (omega arith) (omega arith)
