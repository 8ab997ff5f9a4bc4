-- ===== src/Client/Commands.antt =====
-- client.py: the commands `send`, `forward`, `ack` and `wakeup`.
pub mod Checks
use sockpost.Common.{
  Bool, ◌||◌, [], ◌∷◌, ◌++◌, Option, none, some, if◌then◌else◌, Text, codes, text_instance,
}
use sockpost.Common.Int.{ℤ}
use sockpost.Common.Dict.{get}
use sockpost.Common.Result.{Result, ok, err, ◌>>=◌}
use sockpost.Python.Decimal.{int_text}
use sockpost.Python.Json.{dumps_text}
use sockpost.Python.Value.{Value, null, int, text, Request, field_of, to_text, truth_of, show_int}
use sockpost.Protocol.Channel.{validate_channel}
use sockpost.Protocol.Forward.{starts_with}
use sockpost.Client.Settings.{
  ClientSettings, Complaint, missing_text, message_id_not_a_number, message_dropped, note_dropped,
  refused, older_daemon, Outcome, exits, fail, optional, channel_or_complaint, resolve_id,
  unreachable_hint,
}
use sockpost.Client.Exchange.{Answer, Command, finished, asks, concluded, is_text}

-- P.quote
unfoldable pub quote : Value → Text
unfolding dumps_text to_text
quote null = dumps_text []
quote value = dumps_text (to_text value)

-- The two channels that a command names.
parties : ClientSettings → Option Text → Option Text → Result Complaint (Text × Text)
unfolding resolve_id channel_or_complaint
parties settings from_arg to_arg = do
  sender ← resolve_id settings from_arg (codes "--from")
  recipient ← channel_or_complaint (validate_channel (optional to_arg))
  ok (sender, recipient)

-- A check that failed ends the command.
unfoldable pub after_checks : {A : Type 0} → Result Complaint A → (A → Command) → Command
after_checks (err complaint) next = finished (fail complaint)
after_checks (ok a) next = next a

unfoldable pub send_request : Text → Text → Text → Request
send_request sender recipient body =
    (codes "op", text (codes "send"))
    ∷ (codes "from", text sender)
    ∷ (codes "to", text recipient)
    ∷ (codes "text", text body)
    ∷ []

unfoldable pub sent_lines : Request → Outcome
sent_lines reply = exits 0 ((codes "queued id=" ++ to_text (field_of (codes "msg_id") reply)) ∷ [])

body_or_complaint : Option Text → Result Complaint Text
body_or_complaint none = err missing_text
body_or_complaint (some body) = ok body

unfoldable pub sent_outcome : ClientSettings → Answer → Outcome
unfolding sent_lines
sent_outcome settings = concluded settings message_dropped refused sent_lines

unfoldable pub send_checks :
    ClientSettings → Option Text → Option Text → Option Text → Result Complaint (Text × Text × Text)
unfolding parties body_or_complaint
send_checks settings from_arg to_arg text_arg = do
  (sender, recipient) ← parties settings from_arg to_arg
  body ← body_or_complaint text_arg
  ok (sender, recipient, body)

unfoldable pub cmd_send : ClientSettings → Option Text → Option Text → Option Text → Command
unfolding send_checks after_checks send_request
cmd_send settings from_arg to_arg text_arg =
    after_checks (send_checks settings from_arg to_arg text_arg) (λ (sender, recipient, body).
      asks (send_request sender recipient body) (codes "queued") (sent_outcome settings))

id_or_complaint : Option ℤ → Result Complaint ℤ
id_or_complaint none = err message_id_not_a_number
id_or_complaint (some id) = ok id

-- `int(message_id)`
unfoldable pub number_arg : Option Text → Result Complaint ℤ
unfolding id_or_complaint
number_arg none = err message_id_not_a_number
number_arg (some s) = id_or_complaint (int_text s)

-- `sub in s`
unfoldable pub contains : Text → Text → Bool
unfolding starts_with
contains sub [] = starts_with sub []
contains sub (c ∷ s) = starts_with sub (c ∷ s) || contains sub s

-- `_translate_unknown_op`
unfoldable pub translate_unknown_op : Text → Text → Complaint
unfolding contains
translate_unknown_op command said =
    if contains (codes "unknown op") said then older_daemon command else refused said

unfoldable pub add_note : Option Text → Request → Request
add_note none request = request
add_note (some []) request = request
add_note (some (c ∷ note)) request = request ++ (codes "note", text (c ∷ note)) ∷ []

unfoldable pub forward_request : ℤ → Text → Text → Option Text → Request
unfolding add_note
forward_request source_id forwarder recipient note = add_note note (
    (codes "op", text (codes "forward"))
    ∷ (codes "src_id", int source_id)
    ∷ (codes "from", text forwarder)
    ∷ (codes "to", text recipient)
    ∷ [])

unfoldable pub forwarded_lines : Text → Request → Outcome
forwarded_lines recipient reply = exits 0 (
    (codes "forwarded id="
      ++ (to_text (field_of (codes "msg_id") reply)
          ++ (codes " src="
              ++ (to_text (field_of (codes "src_id") reply)
                  ++ (codes " to="
                      ++ (recipient
                          ++ (codes " hops=" ++ to_text (field_of (codes "hops") reply))))))))
    ∷ [])

unfoldable pub forwarded_outcome : ClientSettings → Text → Answer → Outcome
unfolding forwarded_lines translate_unknown_op
forwarded_outcome settings recipient =
    concluded settings note_dropped (translate_unknown_op (codes "forward"))
      (forwarded_lines recipient)

unfoldable pub forward_checks :
    ClientSettings → Option Text → Option Text → Option Text → Result Complaint (ℤ × Text × Text)
unfolding parties number_arg
forward_checks settings message_id from_arg to_arg = do
  (forwarder, recipient) ← parties settings from_arg to_arg
  source_id ← number_arg message_id
  ok (source_id, forwarder, recipient)

unfoldable pub cmd_forward :
    ClientSettings → Option Text → Option Text → Option Text → Option Text → Command
unfolding forward_checks after_checks forward_request forwarded_outcome
cmd_forward settings message_id from_arg to_arg note =
    after_checks (forward_checks settings message_id from_arg to_arg)
      (λ (source_id, forwarder, recipient).
        asks (forward_request source_id forwarder recipient note) (codes "forwarded")
          (forwarded_outcome settings recipient))

unfoldable pub ack_request : ℤ → Text → Request
ack_request message_id channel =
    (codes "op", text (codes "ack"))
    ∷ (codes "msg_id", int message_id)
    ∷ (codes "from", text channel)
    ∷ []

-- `reply.get("reason", "not acknowledged")`
reason_or_default : Option Value → Value
reason_or_default none = text (codes "not acknowledged")
reason_or_default (some reason) = reason

not_updated : ℤ → Value → Outcome
unfolding is_text quote
not_updated message_id reason =
    exits (if is_text (codes "already acknowledged") reason then 0 else 1)
      ((codes "ack id=" ++ (show_int message_id ++ (codes " status=" ++ quote reason))) ∷ [])

unfoldable pub acked_lines : ℤ → Request → Outcome
unfolding reason_or_default not_updated
acked_lines message_id reply =
    if truth_of (field_of (codes "updated") reply)
    then exits 0 ((codes "ack id=" ++ show_int message_id) ∷ [])
    else not_updated message_id (reason_or_default (get (codes "reason") reply))

-- BrokenPipeError and ConnectionResetError are OSErrors too.
unfoldable pub acked_outcome : ClientSettings → ℤ → Answer → Outcome
unfolding acked_lines
acked_outcome settings message_id =
    concluded settings (unreachable_hint settings) refused (acked_lines message_id)

unfoldable pub ack_checks : ClientSettings → Option Text → Option Text → Result Complaint (ℤ × Text)
unfolding number_arg
ack_checks settings message_id from_arg = do
  channel ← resolve_id settings from_arg (codes "--from")
  numeric_id ← number_arg message_id
  ok (numeric_id, channel)

unfoldable pub cmd_ack : ClientSettings → Option Text → Option Text → Command
unfolding ack_checks after_checks ack_request acked_outcome
cmd_ack settings message_id from_arg =
    after_checks (ack_checks settings message_id from_arg) (λ (numeric_id, channel).
      asks (ack_request numeric_id channel) (codes "ack_result")
        (acked_outcome settings numeric_id))
