-- ===== src/Daemon/Requests.antt =====
-- daemon.py: the handlers of `send` and `forward`. A request is checked first, which
-- gives what to do or the problem to report; nothing is written before.
use sockpost.Common.{
  ℕ, ◌+◌, Bool, true, false, ◌&&◌, [], ◌∷◌, Option, none, some, ltb, leb, if◌then◌else◌, Text,
  codes, text_eq, text_instance,
}
use sockpost.Common.Int.{ℤ, pos, negsuc}
use sockpost.Common.Dict.{get}
use sockpost.Common.Result.{Result, ok, err, ◌>>=◌}
use sockpost.Python.Value.{
  Value, null, bool, int, text, other, Conversion, number, invalid, overflow, to_text, to_int,
  Request, field_of,
}
use sockpost.Protocol.Channel.{validate_channel, ChannelError}
use sockpost.Protocol.Forward.{Fields, forward_body, split_forward, forward_hops}
use sockpost.Store.Tables.{Db, Message, is_pending}
use sockpost.Store.Messages.{insert_message, get_message}
use sockpost.Daemon.State.{
  Daemon, Moment, Settings, Problem, bad_channel, body_too_large, write_failed, not_a_number,
  no_such_message, still_queued, unreadable_hops, too_many_hops, could_not_process, overflow_error,
  unicode_encode_error, Payload, error, queued, forwarded, key_instance, reply,
}
use sockpost.Daemon.Delivery.{route}

unfoldable pub channel_or_problem : Result ChannelError Text → Result Problem Text
channel_or_problem (ok channel) = ok channel
channel_or_problem (err e) = err (bad_channel e)

unfoldable pub channel_field : Text → Request → Result Problem Text
unfolding channel_or_problem
channel_field key request = channel_or_problem (validate_channel (field_of key request))

-- The bytes of a character in UTF-8; a surrogate has none.
char_size : ℕ → Option ℕ
char_size c =
    if ltb c 0x80
    then some 1
    else if ltb c 0x800
    then some 2
    else if leb 0xD800 c && leb c 0xDFFF
    then none
    else if ltb c 0x10000
    then some 3
    else some 4

add_size : Option ℕ → Option ℕ → Option ℕ
add_size (some m) (some n) = some (m + n)
add_size _ _ = none

-- len(s.encode("utf-8"))
unfoldable pub utf8_size : Text → Option ℕ
unfolding char_size add_size
utf8_size [] = some 0
utf8_size (c ∷ s) = add_size (char_size c) (utf8_size s)

-- n > limit
unfoldable pub exceeds : ℕ → ℤ → Bool
exceeds n (pos limit) = ltb limit n
exceeds n (negsuc limit) = true

unfoldable pub within_limit : ℤ → Text → Option ℕ → Result Problem Text
unfolding exceeds
within_limit limit body none = err (could_not_process unicode_encode_error)
within_limit limit body (some size) =
    if exceeds size limit then err (body_too_large size) else ok body

-- `request.get("text", "")`, as a text
text_field : Option Value → Text
text_field none = []
text_field (some value) = to_text value

-- What a send inserts.
pub record Mail : Type 0 where
  pub sender : Text
  pub recipient : Text
  pub body : Text

unfoldable pub checked_send : Settings → Request → Result Problem Mail
unfolding channel_field text_field within_limit
checked_send settings request = do
  sender ← channel_field (codes "from") request
  recipient ← channel_field (codes "to") request
  body ←
      within_limit settings.max_body_bytes (text_field (get (codes "text") request))
        (utf8_size (text_field (get (codes "text") request)))
  ok (record { sender = sender; recipient = recipient; body = body })

-- The insertion: an `sqlite3.Error` from a refused write, or from ids that have run out.
unfoldable pub insert : Moment → Mail → Db → Result Problem (ℕ × Db)
insert w mail db =
    if w.refuses
    then err write_failed
    else elim (insert_message w.now mail.recipient mail.sender mail.body db) [
      | ok a ↦ ok a
      | err e ↦ err write_failed
    ]

-- The reply, and the routing that follows if the peer took it.
unfoldable pub announce : Moment → ℕ → Payload → ℕ → Mail → Daemon → Daemon
unfolding route
announce w conn payload message_id mail d =
    let replied = reply w conn payload d in
    if w.takes conn then route w message_id mail.sender mail.recipient replied else replied

unfoldable pub queue : Moment → ℕ → (ℕ → Payload) → Mail → Daemon → Daemon
unfolding insert announce reply
queue w conn payload mail d = elim (insert w mail d.db) [
  | err problem ↦ reply w conn (error problem) d
  | ok (message_id, db) ↦
      announce w conn (payload message_id) message_id mail (record d { db = db })
]

unfoldable pub handle_send : Moment → ℕ → Request → Daemon → Daemon
unfolding checked_send queue
handle_send w conn request d = elim (checked_send d.settings request) [
  | err problem ↦ reply w conn (error problem) d
  | ok mail ↦ queue w conn queued mail d
]

unfoldable pub number_or_problem : Conversion → Result Problem ℤ
number_or_problem (number z) = ok z
number_or_problem invalid = err not_a_number
number_or_problem overflow = err (could_not_process overflow_error)

unfoldable pub source_or_problem : ℤ → Option Message → Result Problem Message
source_or_problem source_id none = err (no_such_message source_id)
source_or_problem source_id (some m) = ok m

unfoldable pub unless : Bool → Problem → Result Problem Unit
unless true problem = err problem
unless false problem = ok tt

unfoldable pub hops_or_problem : ℤ → Option ℕ → Result Problem ℕ
hops_or_problem source_id none = err (unreadable_hops source_id)
hops_or_problem source_id (some hops) = ok hops

or_sender : Text → Result ChannelError Text → Text
or_sender sender (ok origin) = origin
or_sender sender (err e) = sender

-- `fields.get(key)`
text_or_null : Option Text → Value
text_or_null none = null
text_or_null (some s) = text s

unfoldable pub origin_of : Text → Option Fields → Text
unfolding or_sender text_or_null
origin_of sender none = sender
origin_of sender (some fields) =
    or_sender sender (validate_channel (text_or_null (get (codes "from") fields)))

pub note_of : Value → Option Text
note_of null = none
note_of (bool b) = some (to_text (bool b))
note_of (int z) = some (to_text (int z))
note_of (text s) = some s
note_of (other shown truth converted) = some shown

-- What a forward inserts.
pub record Copy : Type 0 where
  pub mail : Mail
  pub source_id : ℕ
  pub hops : ℕ

-- The body of the copy; `source_id` is the id of the row that was found by it.
unfoldable pub copy_of : Text → Message → ℕ → Value → Text
unfolding origin_of note_of
copy_of forwarder m hops note =
    forward_body (split_forward m.body).1 (origin_of m.sender (split_forward m.body).0) forwarder
      m.id m.created_at (hops + 1) (note_of note)

-- The guards on the message that was found, and the copy.
unfoldable pub checked_copy : Settings → Text → Text → Value → ℤ → Message → Result Problem Copy
unfolding unless hops_or_problem within_limit copy_of exceeds
checked_copy settings forwarder recipient note source_id m = do
  _ ← unless (text_eq m.recipient recipient && is_pending m.state) (still_queued source_id)
  hops ← hops_or_problem source_id (forward_hops m.body)
  _ ← unless (exceeds (hops + 1) settings.max_forward_hops) (too_many_hops source_id hops)
  body ←
      within_limit settings.max_body_bytes (copy_of forwarder m hops note)
        (utf8_size (copy_of forwarder m hops note))
  ok (record {
    mail = record { sender = forwarder; recipient = recipient; body = body };
    source_id = m.id;
    hops = hops + 1;
  })

unfoldable pub checked_forward : Settings → Request → Db → Result Problem Copy
unfolding channel_field number_or_problem source_or_problem checked_copy
checked_forward settings request db = do
  forwarder ← channel_field (codes "from") request
  recipient ← channel_field (codes "to") request
  source_id ← number_or_problem (to_int (field_of (codes "src_id") request))
  m ← source_or_problem source_id (get_message source_id db)
  checked_copy settings forwarder recipient (field_of (codes "note") request) source_id m

unfoldable pub handle_forward : Moment → ℕ → Request → Daemon → Daemon
unfolding checked_forward queue
handle_forward w conn request d = elim (checked_forward d.settings request d.db) [
  | err problem ↦ reply w conn (error problem) d
  | ok copy ↦
      queue w conn (λ message_id. forwarded message_id copy.source_id copy.mail.recipient copy.hops)
        copy.mail d
]
