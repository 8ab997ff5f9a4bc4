-- ===== src/System/Sends.antt =====
-- What a `sockpost send` that ends with status 0 has done.
pub mod Answers
use sockpost.Common.{◌∙◌, text_eq, text_instance}
use sockpost.Common.Dict.{get}
use sockpost.Python.Value.{to_text, show_int, field_of}
use sockpost.Daemon.State.{queued}
use sockpost.Daemon.Wire.{as_object}
use sockpost.Daemon.Requests.{Mail}
use sockpost.Client.Settings.{message_dropped, refused}
use sockpost.Client.Exchange.{has_op, concluded}
use sockpost.Client.Commands.{sent_lines, sent_outcome}
use sockpost.Common.{
  ℕ, suc, if◌then◌else◌, ◌≤◌, ◌≡◌, ◌≢◌, refl, sym, subst, ap, ◌∙◌, Bool, true, false, List, [], ◌∷◌,
  ◌++◌, Option, none, some, leb, arith, Text, codes, text_eq, text_instance, Bool-cases, inl, inr,
  ◌⊎◌, drop, length, drop-length-append, ==_refl,
}
use sockpost.Common.Dict.{get}
use sockpost.Common.Int.{pos}
use sockpost.Common.Result.{Result, ok, err, ◌>>=◌}
use sockpost.Python.Value.{Value, text, Request, field_of, to_text, show_int}
use sockpost.Python.Decimal.{to_decimal}
use sockpost.Protocol.Channel.{validate_channel, ChannelError}
use sockpost.Store.Tables.{max_rowid}
use sockpost.Store.Messages.{insert_message}
use sockpost.Store.Validity.{IsValid}
use sockpost.Daemon.Scheduler.Soundness.{IsSound}
use sockpost.Daemon.State.{
  key_instance, Daemon, Moment, Problem, Payload, error, queued, reply, Settings, body_too_large,
  could_not_process, unicode_encode_error, write_failed,
}
use sockpost.Daemon.Wire.{as_object}
use sockpost.Daemon.Requests.{
  Mail, checked_send, handle_send, queue, channel_field, within_limit, insert, utf8_size,
  channel_or_problem, exceeds,
}
use sockpost.Daemon.Routing.{IsStored, IsRouted, handle_send-IsRouted}
use sockpost.Daemon.Loop.{step, receives, dispatch-send}
use sockpost.Client.Settings.{
  ClientSettings, Complaint, Outcome, optional, channel_or_complaint, resolve_id, exits, fail,
  message_dropped, refused, traceback,
}
use sockpost.Client.Exchange.{
  Ending, Answer, Contact, roundtrip, encodable, finished, asks, Line, object, stream, has_op,
  concluded,
}
use sockpost.Client.Exchange.Replies.{
  roundtrip-nothing, roundtrip-wanted, concluded-nothing, concluded-error, concluded-done,
}
use sockpost.Client.Commands.{
  cmd_send, send_request, send_checks, after_checks, sent_outcome, sent_lines,
}
use sockpost.Client.Commands.Checks.{IsSend, send_checks-IsSend}
use sockpost.System.Answers.{Answered, unheard, told, stored}
use sockpost.System.Sends.Answers.{checked_send-request, Answered-send}
use sockpost.System.Conclusions.{ended, ended-IsStored}
use sockpost.System.{talk, contact_of, lines_of, written_to, written-nothing, written-one, asked}

-- What a send that ended with status 0 was given, printed and did.
abbrev pub IsSent :
    Moment
    → ClientSettings
    → Option Text
    → Option Text
    → Option Text
    → Daemon
    → Outcome × Daemon
    → Type 0
IsSent w settings from_arg to_arg text_arg before (outcome, after) =
    (s r b : Text) × IsSend settings from_arg to_arg text_arg s r b
    × (outcome ≡ exits 0 ((codes "queued id=" ++ to_decimal (suc before.db.last_id)) ∷ []))
    × IsStored w (record { sender = s; recipient = r; body = b }) before.db after.db
    × IsRouted w (suc before.db.last_id) s r before after

module _ (error_text : Problem → Text) (shown : Text) (ending : Ending) (w : Moment) (conn : ℕ)
    (settings : ClientSettings) (d : Daemon) where
  -- What the client ends with once the daemon has handled its request.
  concluding : Text → Text → Text → Daemon → Outcome
  concluding s r b =
      ended error_text shown ending settings message_dropped refused sent_lines (send_request s r b)
        (codes "queued") conn d

  -- The claim about a run that is made below.
  Claim : Option Text → Option Text → Option Text → Outcome × Daemon → Type 0
  Claim from_arg to_arg text_arg run =
      run.0.code ≡ 0 → IsSent w settings from_arg to_arg text_arg d run

  -- The run once the checks have passed.
  sending : Text → Text → Text → Bool → Outcome × Daemon
  sending s r b encodes =
      let after = step w (receives conn (send_request s r b)) d in
      if encodes then (concluding s r b after, after) else (fail traceback, d)

  sending-step :
      (s r b : Text)
      → step w (receives conn (send_request s r b)) d ≡ handle_send w conn (send_request s r b) d
  unfolding step
  sending-step s r b =
      dispatch-send w conn (send_request s r b) d (unfold field_of send_request get text_eq in refl)

  talk-sending :
      (from_arg to_arg text_arg : Option Text) (s r b : Text)
      → send_checks settings from_arg to_arg text_arg ≡ ok (s, r, b)
      → talk error_text shown ending w conn (cmd_send settings from_arg to_arg text_arg) d
        ≡ sending s r b (encodable (send_request s r b))
  unfolding talk cmd_send after_checks asked concluding sent_outcome sending concluded
  talk-sending from_arg to_arg text_arg s r b q = rw (cmd_send, q) refl

  talk-failing :
      (from_arg to_arg text_arg : Option Text) (complaint : Complaint)
      → send_checks settings from_arg to_arg text_arg ≡ err complaint
      → talk error_text shown ending w conn (cmd_send settings from_arg to_arg text_arg) d
        ≡ (fail complaint, d)
  unfolding talk cmd_send after_checks
  talk-failing from_arg to_arg text_arg complaint q = rw (cmd_send, q) refl

  Claim-failing :
      (from_arg to_arg text_arg : Option Text) (complaint : Complaint)
      → Claim from_arg to_arg text_arg (fail complaint, d)
  unfolding Claim
  Claim-failing from_arg to_arg text_arg complaint h = absurd (omega (arith, h))

  Claim-sending :
      (from_arg to_arg text_arg : Option Text) (s r b : Text)
      → IsValid d.db
      → IsSound d.scheduler
      → IsSend settings from_arg to_arg text_arg s r b
      → (encodes : Bool) → encodable (send_request s r b) ≡ encodes
      → Claim from_arg to_arg text_arg (sending s r b encodes)
  unfolding Claim sending concluding
  Claim-sending from_arg to_arg text_arg s r b v sound given false sendable h =
      absurd (omega (arith, h))
  Claim-sending from_arg to_arg text_arg s r b v sound given true sendable h =
      let mail : Mail = record { sender = s; recipient = r; body = b } in
      let (outcome, is_stored, is_routed) =
        ended-IsStored error_text shown ending settings message_dropped refused sent_lines
          (send_request s r b) (codes "queued") conn d sendable w queued mail
          (step w (receives conn (send_request s r b)) d)
          (λ p. unfold has_op as_object field_of get text_eq in refl)
          (λ id. unfold has_op as_object field_of get text_eq in refl)
          (λ id. unfold has_op as_object field_of get text_eq in refl)
          (rw (sending-step s r b) (
            Answered-send w conn mail d (send_request s r b) v sound
              (checked_send-request d.settings s r b given.sender_valid given.recipient_valid)))
          h in
      (
        s,
        r,
        b,
        given,
        outcome ∙ (unfold sent_lines as_object field_of get text_eq to_text show_int in refl),
        is_stored,
        is_routed,
      )

  Claim-checked :
      (from_arg to_arg text_arg : Option Text) (checked : Result Complaint (Text × Text × Text))
      → send_checks settings from_arg to_arg text_arg ≡ checked
      → IsValid d.db
      → IsSound d.scheduler
      → Claim from_arg to_arg text_arg
          (talk error_text shown ending w conn (cmd_send settings from_arg to_arg text_arg) d)
  Claim-checked from_arg to_arg text_arg (err complaint) q v sound =
      subst (Claim from_arg to_arg text_arg)
        (sym (talk-failing from_arg to_arg text_arg complaint q))
        (Claim-failing from_arg to_arg text_arg complaint)
  Claim-checked from_arg to_arg text_arg (ok (s, r, b)) q v sound =
      subst (Claim from_arg to_arg text_arg) (sym (talk-sending from_arg to_arg text_arg s r b q)) (
        Claim-sending from_arg to_arg text_arg s r b v sound
          (send_checks-IsSend settings from_arg to_arg text_arg s r b q)
          (encodable (send_request s r b)) refl)

-- From a well-formed database and sound timers: a `sockpost send` that ends with status 0 was given two
-- channel ids and a text, has printed the next message id, and has had that text stored under it, pending,
-- from the one to the other. If somebody listens on the recipient, its pacer is signalled; if nobody does, a
-- timer for the watchdog that tells the sender is due after the timeout for an absent recipient.
pub cmd_send-IsSent :
    (error_text : Problem → Text) (shown : Text) (ending : Ending) (w : Moment) (conn : ℕ)
    (settings : ClientSettings) (from_arg to_arg text_arg : Option Text) (d : Daemon)
    → IsValid d.db
    → IsSound d.scheduler
    → (talk error_text shown ending w conn (cmd_send settings from_arg to_arg text_arg) d).0.code
      ≡ 0
    → IsSent w settings from_arg to_arg text_arg d
        (talk error_text shown ending w conn (cmd_send settings from_arg to_arg text_arg) d)
unfolding Claim
cmd_send-IsSent error_text shown ending w conn settings from_arg to_arg text_arg d v sound h =
    Claim-checked error_text shown ending w conn settings d from_arg to_arg text_arg
      (send_checks settings from_arg to_arg text_arg) refl v sound h
