-- ===== src/Client/Wakeup.antt =====
-- client.py: the command `wakeup`.
use sockpost.Common.{
  ℕ, true, [], ◌∷◌, ◌++◌, Option, if◌then◌else◌, Text, codes, text_eq, text_instance,
}
use sockpost.Common.Int.{pos}
use sockpost.Common.Result.{Result, ok, err, ◌>>=◌}
use sockpost.Python.Space.{strip, lower}
use sockpost.Python.Value.{bool, int, text, Request, field_of, to_text, truth_of}
use sockpost.Protocol.Interval.{parse_interval, IntervalError}
use sockpost.Client.Settings.{
  ClientSettings, Complaint, refused, not_an_interval, Outcome, exits, optional, resolve_id,
  unreachable_hint,
}
use sockpost.Client.Exchange.{Answer, Command, asks, concluded}
use sockpost.Client.Commands.{after_checks}

unfoldable pub wakeup_off_request : Text → Request
wakeup_off_request channel =
    (codes "op", text (codes "wakeup_set"))
    ∷ (codes "channel", text channel)
    ∷ (codes "off", bool true)
    ∷ []

unfoldable pub wakeup_request : Text → ℕ → Text → Request
wakeup_request channel seconds interval =
    (codes "op", text (codes "wakeup_set"))
    ∷ (codes "channel", text channel)
    ∷ (codes "seconds", int (pos seconds))
    ∷ (codes "interval", text interval)
    ∷ []

unfoldable pub seconds_or_complaint : Result IntervalError ℕ → Result Complaint ℕ
seconds_or_complaint (err e) = err (not_an_interval e)
seconds_or_complaint (ok seconds) = ok seconds

-- The request for an interval argument.
unfoldable pub interval_request : Text → Option Text → Result Complaint Request
unfolding seconds_or_complaint wakeup_request wakeup_off_request
interval_request channel interval_arg =
    if text_eq (lower (strip (to_text (optional interval_arg)))) (codes "off")
    then ok (wakeup_off_request channel)
    else (do
      seconds ← seconds_or_complaint (parse_interval interval_arg)
      ok (wakeup_request channel seconds (to_text (optional interval_arg))))

unfoldable pub wakeup_lines : Text → Request → Outcome
wakeup_lines channel reply =
    if truth_of (field_of (codes "off") reply)
    then exits 0 ((codes "wakeup id=" ++ (channel ++ codes " off")) ∷ [])
    else exits 0 (
        (codes "wakeup id="
          ++ (channel
              ++ (codes " interval="
                  ++ (to_text (field_of (codes "interval") reply)
                      ++ (codes " seconds=" ++ to_text (field_of (codes "seconds") reply))))))
        ∷ [])

unfoldable pub wakeup_outcome : ClientSettings → Text → Answer → Outcome
unfolding wakeup_lines
wakeup_outcome settings channel =
    concluded settings (unreachable_hint settings) refused (wakeup_lines channel)

unfoldable pub wakeup_checks :
    ClientSettings → Option Text → Option Text → Result Complaint (Text × Request)
unfolding interval_request
wakeup_checks settings channel_arg interval_arg = do
  channel ← resolve_id settings channel_arg (codes "channel")
  request ← interval_request channel interval_arg
  ok (channel, request)

unfoldable pub cmd_wakeup : ClientSettings → Option Text → Option Text → Command
unfolding wakeup_checks after_checks wakeup_outcome
cmd_wakeup settings channel_arg interval_arg =
    after_checks (wakeup_checks settings channel_arg interval_arg)
      (λ (channel, request). asks request (codes "wakeup_ok") (wakeup_outcome settings channel))
