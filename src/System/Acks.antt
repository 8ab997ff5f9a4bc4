-- ===== src/System/Acks.antt =====
-- When a `sockpost ack` ends with status 0.
use sockpost.Common.{
  ℕ, ◌≡◌, ◌↔◌, refl, sym, ap, ◌∙◌, Bool, true, false, ◌&&◌, [], ◌∷◌, ◌++◌, Option, some, arith,
  Text, codes, text_eq, text_instance, Bool-cases, inl, inr,
}
use sockpost.Common.Dict.{get}
use sockpost.Common.Int.{pos}
use sockpost.Common.Result.{ok}
use sockpost.Python.Value.{int, text, field_of, to_int, number, truth_of}
use sockpost.Protocol.Channel.{validate_channel}
use sockpost.Store.Tables.{Message, State, pending, acked, expired, is_pending}
use sockpost.Store.Messages.{get_message, resolved}
use sockpost.Store.Validity.{IsValid}
use sockpost.Daemon.Scheduler.Soundness.{IsSound}
use sockpost.Daemon.State.{
  key_instance, Daemon, Moment, Problem, Payload, ack_updated, ack_refused, reply,
}
use sockpost.Daemon.Wire.{as_object, reason_text}
use sockpost.Daemon.Settling.{handle_ack, reason_for}
use sockpost.Daemon.Acks.{handle_ack-IsAcknowledged, handle_ack-sent, handle_ack-reason}
use sockpost.Daemon.Loop.{step, dispatch-ack}
use sockpost.Client.Settings.{
  ClientSettings, Outcome, resolve_id, resolve_id-valid, refused, unreachable_hint,
}
use sockpost.Client.Exchange.{Ending, roundtrip, encodable, has_op}
use sockpost.Client.Exchange.Replies.{roundtrip-wanted, concluded-done}
use sockpost.Client.Encoding.{ack_request-encodable}
use sockpost.Client.Commands.{
  cmd_ack, ack_request, acked_outcome, acked_lines, ack_checks, number_arg, after_checks,
}
use sockpost.System.{talk, asked, contact_of, lines_of, written-one}

-- The stored message is acknowledged.
abbrev pub IsAckedIn : ℕ → Daemon → Type 0
IsAckedIn n d = (m : Message) × (get_message (pos n) d.db ≡ some m) × (m.state ≡ acked)

module _ (error_text : Problem → Text) (shown : Text) (ending : Ending) (w : Moment) (conn : ℕ)
    (settings : ClientSettings) (n : ℕ) (channel : Text) (d : Daemon) where
  -- The client reads the one reply that was written.
  outcome-reply :
      (payload : Payload) (after : Daemon)
      → (sendable : encodable (ack_request (pos n) channel) ≡ true)
      → after.sent ≡ d.sent ++ (conn, payload) ∷ []
      → has_op (codes "ack_result") (as_object error_text shown payload) ≡ true
      → has_op (codes "error") (as_object error_text shown payload) ≡ false
      → acked_outcome settings (pos n) (
          roundtrip
            (ack_request (pos n) channel)
            (codes "ack_result")
            (contact_of error_text shown ending conn d after))
        ≡ acked_lines (pos n) (as_object error_text shown payload)
  unfolding contact_of lines_of acked_outcome
  outcome-reply payload after sendable q wanted fine =
      rw
        (
          q,
          written-one conn payload d.sent,
          roundtrip-wanted (ack_request (pos n) channel) (codes "ack_result") ending sendable
              (as_object error_text shown payload) (rw wanted refl),
          concluded-done settings (unreachable_hint settings) refused (acked_lines (pos n))
              (as_object error_text shown payload) fine,
        )
        refl

  updated-status : (acked_lines (pos n) (as_object error_text shown (ack_updated (pos n)))).code ≡ 0
  unfolding acked_lines as_object field_of get text_eq truth_of
  updated-status = refl

  refused_status : Message → State → ℕ
  refused_status m state =
      (acked_lines (pos n)
        (as_object error_text shown (ack_refused (int (pos n)) (reason_for channel m state)))).code

  refused-status :
      (m : Message) (state : State)
      → (is_pending state && text_eq m.recipient channel) ≡ false
      → (refused_status m state ≡ 0) ↔ (state ≡ acked)
  unfolding refused_status acked_lines as_object field_of get text_eq truth_of reason_for
      reason_text
  refused-status m acked h = (λ e. refl, λ e. refl)
  refused-status m expired h = (λ e. absurd (omega (arith, e)), λ e. absurd cc)
  refused-status m pending h = rw h (λ e. absurd (omega (arith, e)), λ e. absurd cc)

  module _ (message_id from_arg : Option Text) (m : Message) (v : IsValid d.db)
      (sound : IsSound d.scheduler) (found : get_message (pos n) d.db ≡ some m)
      (id_is : number_arg message_id ≡ ok (pos n))
      (from_is : resolve_id settings from_arg (codes "--from") ≡ ok channel)
      (takes : w.takes conn ≡ true) where
    valid : validate_channel (text channel) ≡ ok channel
    valid = resolve_id-valid settings from_arg (codes "--from") channel from_is

    after : Daemon
    after = handle_ack w conn (ack_request (pos n) channel) d

    run : Outcome × Daemon
    run = talk error_text shown ending w conn (cmd_ack settings message_id from_arg) d

    run-after : run ≡ (
      acked_outcome settings (pos n) (
          roundtrip
            (ack_request (pos n) channel)
            (codes "ack_result")
            (contact_of error_text shown ending conn d after)),
      after,
    )
    unfolding run talk cmd_ack after_checks asked after ack_checks step
    run-after =
        rw
          (
            cmd_ack,
            from_is,
            id_is,
            ack_request-encodable (pos n) channel valid,
            dispatch-ack w conn (ack_request (pos n) channel) d
                (unfold field_of ack_request get text_eq in refl),
          )
          refl

    -- Whether the recipient acknowledges a message that is pending.
    accepted : Bool
    accepted = is_pending m.state && text_eq m.recipient channel

    id_of : to_int (field_of (codes "msg_id") (ack_request (pos n) channel)) ≡ number (pos n)
    unfolding field_of ack_request get text_eq to_int
    id_of = refl

    from_of : validate_channel (field_of (codes "from") (ack_request (pos n) channel)) ≡ ok channel
    unfolding field_of ack_request get text_eq
    from_of = valid

    status-accepted : accepted ≡ true → (run.0.code ≡ 0) ↔ IsAckedIn n run.1
    unfolding accepted after
    status-accepted e =
        let settled =
          handle_ack-IsAcknowledged w conn n channel m d v found (ack_request (pos n) channel) id_of
            from_of sound e in
        let sent =
          handle_ack-sent w conn n channel m d v found (ack_request (pos n) channel) id_of from_of
            takes e in
        let outcome =
          outcome-reply (ack_updated (pos n)) after (ack_request-encodable (pos n) channel valid)
            sent (unfold has_op as_object field_of get text_eq in refl)
            (unfold has_op as_object field_of get text_eq in refl) in
        rw run-after
          (λ q. (resolved acked w.now m, settled.stored, refl), λ q. rw outcome updated-status)

    found-same : (a : Message) → get_message (pos n) d.db ≡ some a → a ≡ m
    found-same a q = some-inj (sym q ∙ found)
      where
        some-inj : some a ≡ some m → a ≡ m
        some-inj r = cc

    status-refused : accepted ≡ false → (run.0.code ≡ 0) ↔ IsAckedIn n run.1
    unfolding accepted after reply refused_status
    status-refused e =
        let payload = ack_refused (int (pos n)) (reason_for channel m m.state) in
        let same : after ≡ record d { sent = d.sent ++ (conn, payload) ∷ [] } =
          handle_ack-reason w conn n channel m d v found (ack_request (pos n) channel) id_of from_of
            e
          ∙ rw (reply, takes) refl in
        let outcome =
          outcome-reply payload after (ack_request-encodable (pos n) channel valid)
            (ap (λ x. x.sent) same) (unfold has_op as_object field_of get text_eq in refl)
            (unfold has_op as_object field_of get text_eq in refl) in
        let (to_acked, from_acked) = refused-status m m.state e in
        rw (run-after, outcome, same)
          (
            λ q. (m, found, to_acked q),
            λ (a, q, is_acked). from_acked (rw (found-same a q) at is_acked),
          )

-- From a well-formed database and sound timers: a `sockpost ack` of a stored message, by a channel id and on
-- a connection that takes the reply, ends with status 0 exactly if the message is acknowledged after it.
pub cmd_ack-IsAckedIn :
    (error_text : Problem → Text) (shown : Text) (ending : Ending) (w : Moment) (conn : ℕ)
    (settings : ClientSettings) (n : ℕ) (channel : Text) (d : Daemon)
    (message_id from_arg : Option Text) (m : Message)
    → IsValid d.db
    → IsSound d.scheduler
    → get_message (pos n) d.db ≡ some m
    → number_arg message_id ≡ ok (pos n)
    → resolve_id settings from_arg (codes "--from") ≡ ok channel
    → w.takes conn ≡ true
    → let run = talk error_text shown ending w conn (cmd_ack settings message_id from_arg) d in
      (run.0.code ≡ 0) ↔ IsAckedIn n run.1
unfolding run accepted
cmd_ack-IsAckedIn error_text shown ending w conn settings n channel d message_id from_arg m v sound
      found id_is from_is takes =
    elim (Bool-cases (is_pending m.state && text_eq m.recipient channel)) [
      | inl e ↦
          status-accepted error_text shown ending w conn settings n channel d message_id from_arg m
            v sound found id_is from_is takes e
      | inr e ↦
          status-refused error_text shown ending w conn settings n channel d message_id from_arg m v
            sound found id_is from_is takes e
    ]
