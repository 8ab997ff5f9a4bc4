-- ===== src/Daemon/Settling.antt =====
-- daemon.py: the handlers of `ack` and `wakeup_set`.
use sockpost.Common.{
  ℕ, ◌||◌, [], ◌∷◌, ◌++◌, Option, none, some, ltb, ◌==◌, if◌then◌else◌, Text, codes, text_eq,
  text_instance,
}
use sockpost.Common.Int.{ℤ, pos, negsuc}
use sockpost.Common.Dict.{get}
use sockpost.Common.Result.{Result, ok, err}
use sockpost.Python.Value.{
  Value, int, Conversion, number, invalid, overflow, to_text, to_int, show_int, truth_of, Request,
  field_of,
}
use sockpost.Protocol.Channel.{validate_channel, ChannelError}
use sockpost.Protocol.Encoding.{encodable_value}
use sockpost.Protocol.Interval.{max_interval_seconds}
use sockpost.Store.Tables.{Message, State, pending, acked, expired, Failure}
use sockpost.Store.Messages.{ack_message, message_status}
use sockpost.Store.Wakeups.{save_wakeup, delete_wakeup}
use sockpost.Daemon.Scheduler.{cancel}
use sockpost.Daemon.State.{
  Daemon, Moment, bad_channel, bad_interval, could_not_process, overflow_error,
  unicode_encode_error, Payload, Reason, invalid_id, no_message, already_acknowledged,
  message_expired, not_the_recipient, not_acknowledged, bad_sender, error, ack_updated, ack_refused,
  wakeup_off, wakeup_ok, ack_key, redeliver_key, key_instance, discard, reply,
}
use sockpost.Daemon.Timers.{start_wakeup, stop_wakeup}

-- What an acknowledged message leaves: nothing in flight, no timer.
abbrev pub forget : ℕ → Daemon → Daemon
forget message_id d = record d {
  inflight = discard message_id d.inflight;
  scheduler = cancel (redeliver_key message_id) (cancel (ack_key message_id) d.scheduler);
}

-- An updated row has a positive id.
unfoldable pub acknowledged : ℤ → Daemon → Daemon
acknowledged (pos message_id) d = forget message_id d
acknowledged (negsuc n) d = d

unfoldable pub reason_for : Text → Message → State → Reason
reason_for recipient m acked = already_acknowledged
reason_for recipient m expired = message_expired
reason_for recipient m pending =
    if text_eq m.recipient recipient then not_acknowledged else not_the_recipient recipient

unfoldable pub reason_of : Text → Option Message → Reason
unfolding reason_for
reason_of recipient none = no_message
reason_of recipient (some m) = reason_for recipient m m.state

unfoldable pub explain : Moment → ℕ → ℤ → Text → Result Failure (Option Message) → Daemon → Daemon
unfolding reason_of
explain w conn message_id recipient (err e) d =
    reply w conn (error (could_not_process overflow_error)) d
explain w conn message_id recipient (ok status) d =
    reply w conn (ack_refused (int message_id) (reason_of recipient status)) d

unfoldable pub settle : Moment → ℕ → ℤ → Text → Daemon → Daemon
unfolding acknowledged explain
settle w conn message_id recipient d = elim (ack_message w.now message_id recipient d.db) [
  | err e ↦ reply w conn (error (could_not_process overflow_error)) d
  | ok (updated, db) ↦
      if updated
      then reply w conn (ack_updated message_id) (acknowledged message_id (record d { db = db }))
      else explain w conn message_id recipient (message_status message_id d.db) d
]

unfoldable pub ack_from : Moment → ℕ → ℤ → Result ChannelError Text → Daemon → Daemon
unfolding settle
ack_from w conn message_id (err e) d = reply w conn (ack_refused (int message_id) (bad_sender e)) d
ack_from w conn message_id (ok recipient) d = settle w conn message_id recipient d

-- The reply that refuses an id, or what the UnicodeEncodeError of encoding it comes to.
unfoldable pub id_refused : Value → Payload
unfolding encodable_value
id_refused value =
    if encodable_value value
    then ack_refused value invalid_id
    else error (could_not_process unicode_encode_error)

unfoldable pub ack_id : Moment → ℕ → Request → Conversion → Daemon → Daemon
unfolding ack_from id_refused
ack_id w conn request invalid d = reply w conn (id_refused (field_of (codes "msg_id") request)) d
ack_id w conn request overflow d = reply w conn (error (could_not_process overflow_error)) d
ack_id w conn request (number message_id) d =
    ack_from w conn message_id (validate_channel (field_of (codes "from") request)) d

unfoldable pub handle_ack : Moment → ℕ → Request → Daemon → Daemon
unfolding ack_id
handle_ack w conn request d = ack_id w conn request (to_int (field_of (codes "msg_id") request)) d

-- `int(request.get("seconds", 0))`, or 0; `none` for an OverflowError.
unfoldable pub seconds_of : Conversion → Option ℤ
seconds_of (number z) = some z
seconds_of invalid = some (pos 0)
seconds_of overflow = none

-- `request.get("interval") or ("%ds" % seconds)`, as a text
unfoldable pub interval_text : Value → ℕ → Text
interval_text value seconds =
    if truth_of value then to_text value else show_int (pos seconds) ++ b's' ∷ []

unfoldable pub set_interval : Moment → ℕ → Text → Text → ℕ → Daemon → Daemon
set_interval w conn channel interval seconds d =
    reply w conn (wakeup_ok channel interval seconds)
      (start_wakeup w channel seconds (record d { db = save_wakeup channel interval seconds d.db }))

unfoldable pub set_seconds : Moment → ℕ → Text → Value → Option ℤ → Daemon → Daemon
unfolding interval_text set_interval
set_seconds w conn channel value none d = reply w conn (error (could_not_process overflow_error)) d
set_seconds w conn channel value (some (negsuc n)) d = reply w conn (error bad_interval) d
set_seconds w conn channel value (some (pos seconds)) d =
    if seconds == 0 || ltb max_interval_seconds seconds
    then reply w conn (error bad_interval) d
    else set_interval w conn channel (interval_text value seconds) seconds d

-- `request.get("seconds", 0)`
unfoldable pub or_zero_value : Option Value → Value
or_zero_value none = int (pos 0)
or_zero_value (some value) = value

unfoldable pub set_wakeup : Moment → ℕ → Request → Result ChannelError Text → Daemon → Daemon
unfolding set_seconds seconds_of or_zero_value
set_wakeup w conn request (err e) d = reply w conn (error (bad_channel e)) d
set_wakeup w conn request (ok channel) d =
    if truth_of (field_of (codes "off") request)
    then reply w conn (wakeup_off channel)
        (stop_wakeup channel (record d { db = (delete_wakeup channel d.db).1 }))
    else set_seconds w conn channel (field_of (codes "interval") request)
        (seconds_of (to_int (or_zero_value (get (codes "seconds") request)))) d

unfoldable pub handle_wakeup_set : Moment → ℕ → Request → Daemon → Daemon
unfolding set_wakeup
handle_wakeup_set w conn request d =
    set_wakeup w conn request (validate_channel (field_of (codes "channel") request)) d
