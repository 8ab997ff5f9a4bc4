-- ===== src/Client/Commands/Checks.antt =====
-- What the commands were given when their checks pass.
use sockpost.Common.{◌≡◌, ap, ◌∙◌, Option, none, some, Text, codes}
use sockpost.Common.Int.{ℤ}
use sockpost.Common.Result.{ok, bind-ok}
use sockpost.Python.Value.{text}
use sockpost.Protocol.Channel.{validate_channel}
use sockpost.Client.Settings.{
  ClientSettings, optional, channel_or_complaint, resolve_id, resolve_id-valid,
  channel_or_complaint-valid,
}
use sockpost.Client.Commands.{parties, body_or_complaint, send_checks, number_arg, ack_checks}

-- A send's arguments, the ids and the text that they come to.
pub record IsSend (settings : ClientSettings) (from_arg to_arg text_arg : Option Text)
    (sender recipient body : Text) : Type 0 where
  pub from_is : resolve_id settings from_arg (codes "--from") ≡ ok sender
  pub to_is : validate_channel (optional to_arg) ≡ ok recipient
  pub text_is : text_arg ≡ some body
  pub sender_valid : validate_channel (text sender) ≡ ok sender
  pub recipient_valid : validate_channel (text recipient) ≡ ok recipient

parties-ok :
    (settings : ClientSettings) (from_arg to_arg : Option Text) (sender recipient : Text)
    → parties settings from_arg to_arg ≡ ok (sender, recipient)
    → (resolve_id settings from_arg (codes "--from") ≡ ok sender)
      × (validate_channel (optional to_arg) ≡ ok recipient)
      × (validate_channel (text sender) ≡ ok sender)
      × (validate_channel (text recipient) ≡ ok recipient)
unfolding parties
parties-ok settings from_arg to_arg sender recipient h =
    let (s, from_is, next) = bind-ok (resolve_id settings from_arg (codes "--from")) _ _ h in
    let (r, to_is, last) =
      bind-ok (channel_or_complaint (validate_channel (optional to_arg))) _ _ next in
    let same : (s ≡ sender) × (r ≡ recipient) = (cc last, cc last) in
    let (given, valid) = channel_or_complaint-valid (optional to_arg) r to_is in
    (
      from_is ∙ ap ok same.0,
      given ∙ ap ok same.1,
      rw (← same.0) (resolve_id-valid settings from_arg (codes "--from") s from_is),
      rw (← same.1) valid,
    )

body-ok :
    (text_arg : Option Text) (body : Text)
    → body_or_complaint text_arg ≡ ok body
    → text_arg ≡ some body
unfolding body_or_complaint
body-ok none body h = absurd cc
body-ok (some b) body h = let same : b ≡ body = cc in ap some same

-- A send whose checks pass has two channels and a text.
pub send_checks-IsSend :
    (settings : ClientSettings) (from_arg to_arg text_arg : Option Text)
    (sender recipient body : Text)
    → send_checks settings from_arg to_arg text_arg ≡ ok (sender, recipient, body)
    → IsSend settings from_arg to_arg text_arg sender recipient body
unfolding send_checks
send_checks-IsSend settings from_arg to_arg text_arg sender recipient body h =
    let ((s, r), both, next) = bind-ok (parties settings from_arg to_arg) _ _ h in
    let (b, text_is, last) = bind-ok (body_or_complaint text_arg) _ _ next in
    let (from_is, to_is, sender_valid, recipient_valid) =
      parties-ok settings from_arg to_arg s r both in
    let same : (s ≡ sender) × (r ≡ recipient) × (b ≡ body) = (cc last, cc last, cc last) in
    record {
      from_is = from_is ∙ ap ok same.0;
      to_is = to_is ∙ ap ok same.1;
      text_is = body-ok text_arg b text_is ∙ ap some same.2;
      sender_valid = rw (← same.0) sender_valid;
      recipient_valid = rw (← same.1) recipient_valid;
    }

-- An acknowledgement's arguments, the id and the channel that they come to.
pub record IsAck (settings : ClientSettings) (message_id from_arg : Option Text) (numeric_id : ℤ)
    (channel : Text) : Type 0 where
  pub id_is : number_arg message_id ≡ ok numeric_id
  pub from_is : resolve_id settings from_arg (codes "--from") ≡ ok channel
  pub channel_valid : validate_channel (text channel) ≡ ok channel

pub ack_checks-IsAck :
    (settings : ClientSettings) (message_id from_arg : Option Text) (numeric_id : ℤ)
    (channel : Text)
    → ack_checks settings message_id from_arg ≡ ok (numeric_id, channel)
    → IsAck settings message_id from_arg numeric_id channel
unfolding ack_checks
ack_checks-IsAck settings message_id from_arg numeric_id channel h =
    let (c, from_is, next) = bind-ok (resolve_id settings from_arg (codes "--from")) _ _ h in
    let (n, id_is, last) = bind-ok (number_arg message_id) _ _ next in
    let same : (n ≡ numeric_id) × (c ≡ channel) = (cc last, cc last) in
    record {
      id_is = id_is ∙ ap ok same.0;
      from_is = from_is ∙ ap ok same.1;
      channel_valid = rw (← same.1) (resolve_id-valid settings from_arg (codes "--from") c from_is);
    }
