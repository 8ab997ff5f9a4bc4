-- ===== src/Client/Listen/Writes.antt =====
-- What a listener writes to the daemon, and why.
use sockpost.Common.{◌≡◌, Bool, false, [], ◌∷◌, ◌++◌, Text, codes, text_instance}
use sockpost.Python.Value.{Request, text, field_of}
use sockpost.Client.Events.{print_event, message, ping_check, kind_of}
use sockpost.Client.Listen.{Listener, opening}

-- A connect under the channel's id.
abbrev pub IsConnect : Text → Request → Type 0
IsConnect channel request =
    (field_of (codes "op") request ≡ text (codes "connect"))
    × (field_of (codes "id") request ≡ text channel)

-- An acknowledgement, by the channel, of the message that an object holds.
abbrev pub IsAckOf : Text → Request → Request → Type 0
IsAckOf channel obj request =
    (field_of (codes "op") request ≡ text (codes "ack"))
    × (field_of (codes "msg_id") request ≡ field_of (codes "msg_id") obj)
    × (field_of (codes "from") request ≡ text channel)

-- The channel's answer to the probe that an object holds.
abbrev pub IsAnswerTo : Text → Request → Request → Type 0
IsAnswerTo channel obj request =
    (field_of (codes "op") request ≡ text (codes "ping_ack"))
    × (field_of (codes "probe_id") request ≡ field_of (codes "probe_id") obj)
    × (field_of (codes "id") request ≡ text channel)

-- How the writes of a listener grow in one step: not at all, by its connect request, by the
-- acknowledgement of the message that it printed in that step, or by its answer to a probe.
pub data Growth (channel : Text) (manual_ack json : Bool) (before after : Listener) : Type 0 where
  unchanged : after.written ≡ before.written → Growth channel manual_ack json before after
  connects :
      (request : Request)
      → before.phase ≡ opening
      → IsConnect channel request
      → after.written ≡ before.written ++ request ∷ []
      → Growth channel manual_ack json before after
  acknowledges :
      (obj request : Request)
      → manual_ack ≡ false
      → kind_of obj ≡ message
      → after.printed ≡ before.printed ++ print_event obj channel json
      → IsAckOf channel obj request
      → after.written ≡ before.written ++ request ∷ []
      → Growth channel manual_ack json before after
  answers :
      (obj request : Request)
      → kind_of obj ≡ ping_check
      → IsAnswerTo channel obj request
      → after.written ≡ before.written ++ request ∷ []
      → Growth channel manual_ack json before after

module _ (channel : Text) (manual_ack json : Bool) (l : Listener) where
  abbrev printing : Request → Listener
  printing obj = record l { printed = l.printed ++ print_event obj channel json }
