-- ===== src/System/Wakeups.antt =====
-- What a `sockpost wakeup` that ends with status 0 has done.
use sockpost.Common.{
  ℕ, ◌≡◌, ◌⊎◌, refl, sym, subst, Bool, true, false, [], ◌∷◌, ◌++◌, Option, none, some, arith, Text,
  codes, text_eq, text_instance, if◌then◌else◌, inl, inr, Bool-cases,
}
use sockpost.Common.Dict.{get}
use sockpost.Common.Result.{Result, ok, err}
use sockpost.Python.Decimal.{to_decimal}
use sockpost.Python.Space.{strip, lower}
use sockpost.Python.Value.{Request, field_of, text, to_text, truth_of}
use sockpost.Protocol.Channel.{validate_channel}
use sockpost.Protocol.Interval.{parse_interval, IntervalError}
use sockpost.Protocol.Interval.Bounds.{parse_interval_bounds}
use sockpost.Store.Validity.{IsValid}
use sockpost.Daemon.Scheduler.Soundness.{IsSound}
use sockpost.Daemon.State.{key_instance, Daemon, Moment, Problem, wakeup_off, wakeup_ok}
use sockpost.Daemon.Wire.{as_object}
use sockpost.Daemon.Timers.{start_wakeup, stop_wakeup}
use sockpost.Daemon.Settling.{handle_wakeup_set}
use sockpost.Daemon.Wakeups.{
  IsOff, IsEvery, IsOff-reply, IsEvery-reply, stopped, started, handle_wakeup_set-off,
  stopped-IsOff, handle_wakeup_set-every, started-IsEvery,
}
use sockpost.Daemon.Loop.{step, dispatch-wakeup_set}
use sockpost.Client.Settings.{
  ClientSettings, Complaint, Outcome, exits, fail, traceback, optional, resolve_id,
  resolve_id-valid, refused, unreachable_hint, not_an_interval,
}
use sockpost.Client.Exchange.{Ending, encodable, has_op, concluded}
use sockpost.Client.Commands.{after_checks}
use sockpost.Client.Wakeup.{
  cmd_wakeup, wakeup_checks, wakeup_request, wakeup_off_request, wakeup_outcome, wakeup_lines,
  interval_request, seconds_or_complaint,
}
use sockpost.System.{talk, asked}
use sockpost.System.Conclusions.{ended, ended-replied}

-- The argument says that there shall be no wakeup.
abbrev says_off : Option Text → Bool
says_off interval_arg = text_eq (lower (strip (to_text (optional interval_arg)))) (codes "off")

abbrev off_line : Text → Text
off_line channel = codes "wakeup id=" ++ (channel ++ codes " off")

abbrev every_line : Text → Text → ℕ → Text
every_line channel interval seconds =
    codes "wakeup id="
    ++ (channel ++ (codes " interval=" ++ (interval ++ (codes " seconds=" ++ to_decimal seconds))))

-- What a wakeup command that ended with status 0 was given, printed and did.
abbrev pub IsWakeupSet :
    Moment → ClientSettings → Option Text → Option Text → Outcome × Daemon → Type 0
IsWakeupSet w settings channel_arg interval_arg (outcome, after) =
    (channel : Text) × (resolve_id settings channel_arg (codes "channel") ≡ ok channel)
    × (((says_off interval_arg ≡ true)
          × (outcome ≡ exits 0 (off_line channel ∷ []))
          × IsOff channel after)
        ⊎ ((seconds : ℕ) × (parse_interval interval_arg ≡ ok seconds)
            × (outcome
                ≡ exits 0 (every_line channel (to_text (optional interval_arg)) seconds ∷ []))
            × IsEvery w channel (to_text (optional interval_arg)) seconds after))

-- An interval that can be read is not empty.
truth_of-interval :
    (interval_arg : Option Text) (seconds : ℕ)
    → parse_interval interval_arg ≡ ok seconds
    → truth_of (text (to_text (optional interval_arg))) ≡ true
unfolding parse_interval truth_of to_text optional strip lower
truth_of-interval none seconds h = cc
truth_of-interval (some []) seconds h = cc
truth_of-interval (some (c ∷ s)) seconds h = refl

module _ (error_text : Problem → Text) (shown : Text) (ending : Ending) (w : Moment) (conn : ℕ)
    (settings : ClientSettings) (d : Daemon) (channel_arg interval_arg : Option Text) where
  Claim : Outcome × Daemon → Type 0
  Claim run = run.0.code ≡ 0 → IsWakeupSet w settings channel_arg interval_arg run

  run : Outcome × Daemon
  run = talk error_text shown ending w conn (cmd_wakeup settings channel_arg interval_arg) d

  Claim-failing :
      (complaint : Complaint)
      → wakeup_checks settings channel_arg interval_arg ≡ err complaint
      → Claim run
  unfolding Claim run talk cmd_wakeup after_checks
  Claim-failing complaint q = rw (cmd_wakeup, q) (λ h. absurd (omega (arith, h)))

  module _ (channel : Text) (request : Request) where
    setting : Bool → Outcome × Daemon
    setting encodes =
        if encodes
        then (
          ended error_text shown ending settings (unreachable_hint settings) refused
              (wakeup_lines channel) request (codes "wakeup_ok") conn d
              (handle_wakeup_set w conn request d),
          handle_wakeup_set w conn request d,
        )
        else (fail traceback, d)

    run-setting :
        wakeup_checks settings channel_arg interval_arg ≡ ok (channel, request)
        → field_of (codes "op") request ≡ text (codes "wakeup_set")
        → run ≡ setting (encodable request)
    unfolding run setting talk cmd_wakeup after_checks asked wakeup_outcome step concluded
    run-setting q op = rw (cmd_wakeup, q, dispatch-wakeup_set w conn request d op) refl

    Claim-setting :
        wakeup_checks settings channel_arg interval_arg ≡ ok (channel, request)
        → field_of (codes "op") request ≡ text (codes "wakeup_set")
        → (encodable request ≡ true → Claim (setting true))
        → Claim run
    unfolding Claim setting
    Claim-setting q op sent =
        subst Claim (sym (run-setting q op)) (elim (Bool-cases (encodable request)) [
          | inl e ↦ rw e (sent e)
          | inr e ↦ rw e (λ h. absurd (omega (arith, h)))
        ])

  module _ (channel : Text)
      (chosen : resolve_id settings channel_arg (codes "channel") ≡ ok channel) where
    valid : validate_channel (text channel) ≡ ok channel
    valid = resolve_id-valid settings channel_arg (codes "channel") channel chosen

    Claim-off-sent :
        IsSound d.scheduler
        → says_off interval_arg ≡ true
        → encodable (wakeup_off_request channel) ≡ true
        → Claim (setting channel (wakeup_off_request channel) true)
    unfolding Claim setting
    Claim-off-sent sound off sendable = rw (handle_wakeup_set-off w conn channel d valid) (λ h. (
      channel,
      chosen,
      inl (
        off,
        rw
            (ended-replied error_text shown ending settings (unreachable_hint settings) refused
              (wakeup_lines channel) (wakeup_off_request channel) (codes "wakeup_ok") conn d
              sendable w (wakeup_off channel) (stopped w conn channel d valid)
              (unfold stop_wakeup in refl) (unfold has_op as_object field_of get text_eq in refl)
              (unfold has_op as_object field_of get text_eq in refl) h)
            (unfold wakeup_lines as_object field_of get text_eq truth_of in refl),
        IsOff-reply w conn (wakeup_off channel) channel (stopped w conn channel d valid)
            (stopped-IsOff w conn channel d valid sound),
      ),
    ))

    Claim-off : IsSound d.scheduler → says_off interval_arg ≡ true → Claim run
    unfolding wakeup_checks
    Claim-off sound off =
        Claim-setting channel (wakeup_off_request channel)
          (rw (wakeup_checks, chosen, interval_request, off) refl)
          (unfold wakeup_off_request field_of get text_eq in refl) (Claim-off-sent sound off)

    module _ (seconds : ℕ) (read : parse_interval interval_arg ≡ ok seconds) where
      abbrev interval : Text
      interval = to_text (optional interval_arg)

      abbrev request : Request
      request = wakeup_request channel seconds interval

      Claim-every-sent :
          IsValid d.db
          → IsSound d.scheduler
          → encodable request ≡ true
          → Claim (setting channel request true)
      unfolding Claim setting
      Claim-every-sent v sound sendable =
          let (low, high) = parse_interval_bounds interval_arg seconds read in
          rw
            (handle_wakeup_set-every w conn channel d valid interval seconds low high
              (truth_of-interval interval_arg seconds read))
            (λ h. (
              channel,
              chosen,
              inr (
                seconds,
                read,
                rw
                    (ended-replied error_text shown ending settings (unreachable_hint settings)
                      refused (wakeup_lines channel) request (codes "wakeup_ok") conn d sendable w
                      (wakeup_ok channel interval seconds)
                      (started w conn channel d valid interval seconds)
                      (unfold start_wakeup in refl)
                      (unfold has_op as_object field_of get text_eq in refl)
                      (unfold has_op as_object field_of get text_eq in refl) h)
                    (unfold wakeup_lines as_object field_of get text_eq truth_of to_text in refl),
                IsEvery-reply w conn (wakeup_ok channel interval seconds) channel
                    (started w conn channel d valid interval seconds) interval seconds
                    (started-IsEvery w conn channel d valid interval seconds v sound),
              ),
            ))

      Claim-every : IsValid d.db → IsSound d.scheduler → says_off interval_arg ≡ false → Claim run
      unfolding wakeup_checks
      Claim-every v sound off =
          Claim-setting channel request
            (rw (wakeup_checks, chosen, interval_request, off, read, seconds_or_complaint) refl)
            (unfold wakeup_request field_of get text_eq in refl) (Claim-every-sent v sound)

    Claim-chosen :
        IsValid d.db
        → IsSound d.scheduler
        → (read : Result IntervalError ℕ) → parse_interval interval_arg ≡ read
        → Claim run
    unfolding wakeup_checks
    Claim-chosen v sound read q = elim (Bool-cases (says_off interval_arg)) [
      | inl off ↦ Claim-off sound off
      | inr off ↦ by_interval off read q
    ]
      where
        by_interval :
            says_off interval_arg ≡ false
            → (read : Result IntervalError ℕ) → parse_interval interval_arg ≡ read
            → Claim run
        by_interval off (err e) q =
            Claim-failing (not_an_interval e)
              (rw (wakeup_checks, chosen, interval_request, off, q, seconds_or_complaint) refl)
        by_interval off (ok seconds) q = Claim-every seconds q v sound off

  Claim-run :
      IsValid d.db
      → IsSound d.scheduler
      → (chosen : Result Complaint Text)
      → resolve_id settings channel_arg (codes "channel") ≡ chosen
      → Claim run
  unfolding wakeup_checks
  Claim-run v sound (err complaint) q = Claim-failing complaint (rw (wakeup_checks, q) refl)
  Claim-run v sound (ok channel) q =
      Claim-chosen channel q v sound (parse_interval interval_arg) refl

-- From a well-formed database and sound timers: after a `sockpost wakeup` that ends with status 0, either the
-- argument was "off", no wakeup is stored for the channel and none is due, and the command has said so; or the
-- argument was an interval, exactly one wakeup is stored for the channel, with the argument and its seconds,
-- the channel's timer is due after that many seconds, and the command has printed both.
pub cmd_wakeup-IsWakeupSet :
    (error_text : Problem → Text) (shown : Text) (ending : Ending) (w : Moment) (conn : ℕ)
    (settings : ClientSettings) (d : Daemon) (channel_arg interval_arg : Option Text)
    → IsValid d.db
    → IsSound d.scheduler
    → (talk error_text shown ending w conn (cmd_wakeup settings channel_arg interval_arg) d).0.code
      ≡ 0
    → IsWakeupSet w settings channel_arg interval_arg
        (talk error_text shown ending w conn (cmd_wakeup settings channel_arg interval_arg) d)
unfolding Claim run
cmd_wakeup-IsWakeupSet error_text shown ending w conn settings d channel_arg interval_arg v sound
      h =
    Claim-run error_text shown ending w conn settings d channel_arg interval_arg v sound
      (resolve_id settings channel_arg (codes "channel")) refl h
