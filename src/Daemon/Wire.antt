-- ===== src/Daemon/Wire.antt =====
-- daemon.py: the objects that the daemon writes, as its clients read them.
use sockpost.Common.{ℕ, [], ◌∷◌, ◌++◌, Text, codes, true}
use sockpost.Common.Int.{pos}
use sockpost.Python.Value.{Value, bool, int, text, Request}
use sockpost.Protocol.Channel.{ChannelError, missing_channel, invalid_channel}
use sockpost.Daemon.State.{
  Problem, Reason, invalid_id, no_message, already_acknowledged, message_expired, not_the_recipient,
  not_acknowledged, bad_sender, Payload, error, connected, evicted, queued, forwarded, ack_updated,
  ack_refused, wakeup_off, wakeup_ok, message, delivery_timeout, unreachable, wakeup, pong,
}

-- `str(exc)` of a ProtocolError of `validate_channel`; `shown` is the "%r" of the value.
channel_error_text : Text → ChannelError → Text
channel_error_text shown missing_channel = codes "missing channel id"
channel_error_text shown invalid_channel =
    codes "invalid channel id "
    ++ (shown ++ codes " (allowed: letters, digits, dot, dash, underscore; max 64 characters)")

or_unset : Text → Text
or_unset [] = codes "<unset>"
or_unset (c ∷ s) = c ∷ s

unfoldable pub reason_text : Text → Reason → Text
unfolding channel_error_text or_unset
reason_text shown invalid_id = codes "invalid id"
reason_text shown no_message = codes "no such message"
reason_text shown already_acknowledged = codes "already acknowledged"
reason_text shown message_expired = codes "message expired"
reason_text shown not_acknowledged = codes "not acknowledged"
reason_text shown (not_the_recipient channel) =
    codes "channel " ++ (or_unset channel ++ codes " is not the recipient")
reason_text shown (bad_sender e) = channel_error_text shown e

number_value : ℕ → Value
number_value n = int (pos n)

-- EVICTION_NOTICE
abbrev pub eviction_notice : Text
eviction_notice =
    codes
      "another client connected to this channel; this listener is being disconnected (last connection wins)"

-- The texts that a reply may hold beyond its own data: `error_text` words a problem, `shown` is the "%r" of
-- a refused id.
module _ (error_text : Problem → Text) (shown : Text) where
  unfoldable pub as_object : Payload → Request
  unfolding number_value reason_text
  as_object (error problem) =
      (codes "op", text (codes "error")) ∷ (codes "error", text (error_text problem)) ∷ []
  as_object (connected id) = (codes "op", text (codes "connected")) ∷ (codes "id", text id) ∷ []
  as_object (evicted id) =
      (codes "op", text (codes "evicted"))
      ∷ (codes "id", text id)
      ∷ (codes "reason", text (codes "last_connected_wins"))
      ∷ (codes "detail", text eviction_notice)
      ∷ []
  as_object (queued msg_id) =
      (codes "op", text (codes "queued")) ∷ (codes "msg_id", number_value msg_id) ∷ []
  as_object (forwarded msg_id src_id to hops) =
      (codes "op", text (codes "forwarded"))
      ∷ (codes "msg_id", number_value msg_id)
      ∷ (codes "src_id", number_value src_id)
      ∷ (codes "to", text to)
      ∷ (codes "hops", number_value hops)
      ∷ []
  as_object (ack_updated msg_id) =
      (codes "op", text (codes "ack_result"))
      ∷ (codes "msg_id", int msg_id)
      ∷ (codes "updated", number_value 1)
      ∷ []
  as_object (ack_refused msg_id reason) =
      (codes "op", text (codes "ack_result"))
      ∷ (codes "msg_id", msg_id)
      ∷ (codes "updated", number_value 0)
      ∷ (codes "reason", text (reason_text shown reason))
      ∷ []
  as_object (wakeup_off channel) =
      (codes "op", text (codes "wakeup_ok"))
      ∷ (codes "channel", text channel)
      ∷ (codes "off", bool true)
      ∷ []
  as_object (wakeup_ok channel interval seconds) =
      (codes "op", text (codes "wakeup_ok"))
      ∷ (codes "channel", text channel)
      ∷ (codes "interval", text interval)
      ∷ (codes "seconds", number_value seconds)
      ∷ []
  as_object (message msg_id sender body created_at) =
      (codes "op", text (codes "message"))
      ∷ (codes "msg_id", number_value msg_id)
      ∷ (codes "from", text sender)
      ∷ (codes "text", text body)
      ∷ (codes "created_at", text created_at)
      ∷ []
  as_object (delivery_timeout msg_id target waited) =
      (codes "op", text (codes "delivery_timeout"))
      ∷ (codes "msg_id", number_value msg_id)
      ∷ (codes "target", text target)
      ∷ (codes "waited", int waited)
      ∷ []
  as_object (unreachable msg_id target) =
      (codes "op", text (codes "unreachable"))
      ∷ (codes "msg_id", number_value msg_id)
      ∷ (codes "target", text target)
      ∷ []
  as_object (wakeup ts) = (codes "op", text (codes "wakeup")) ∷ (codes "ts", text ts) ∷ []
  as_object pong = (codes "op", text (codes "pong")) ∷ []
