-- ===== src/Client/Encoding.antt =====
-- Which requests of the commands `encode` can encode.
use sockpost.Common.{◌≡◌, refl, true, [], ◌∷◌, arith, Text, all}
use sockpost.Common.Result.{ok}
use sockpost.Common.Int.{ℤ}
use sockpost.Python.Value.{text}
use sockpost.Protocol.Channel.{validate_channel, is_channel_char, is_alphanumeric, IsChannel}
use sockpost.Protocol.Channel.Exact.{validate_channel_iff}
use sockpost.Protocol.Encoding.{is_encodable, encodable_value}
use sockpost.Client.Exchange.{encodable}
use sockpost.Client.Commands.{ack_request}

is_encodable-all : (s : Text) → all is_channel_char s ≡ true → is_encodable s ≡ true
unfolding is_encodable is_channel_char is_alphanumeric
is_encodable-all [] h = refl
is_encodable-all (c ∷ s) h = ground (arith, is_encodable-all s)

all-IsChannel : (t : Text) → IsChannel t → all is_channel_char t ≡ true
unfolding is_channel_char
all-IsChannel [] h = absurd h
all-IsChannel (c ∷ s) h = ground arith

-- A channel id can be encoded.
pub channel-encodable : (t : Text) → validate_channel (text t) ≡ ok t → is_encodable t ≡ true
channel-encodable t h =
    is_encodable-all t (all-IsChannel t ((validate_channel_iff (text t) t).0 h).2)

-- The text of a message can make it impossible to send, an acknowledgement can always be sent.
pub ack_request-encodable :
    (id : ℤ) (channel : Text)
    → validate_channel (text channel) ≡ ok channel
    → encodable (ack_request id channel) ≡ true
unfolding encodable encodable_value ack_request
ack_request-encodable id channel h = rw (channel-encodable channel h) refl
