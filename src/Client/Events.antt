-- ===== src/Client/Events.antt =====
-- client.py, `_print_event`: how the listener shows what the daemon sends it.
pub mod Lines
use sockpost.Common.{Bool, [], ◌∷◌, ◌++◌, List, if◌then◌else◌, Text, codes, text_eq}
use sockpost.Python.Value.{Value, text, Request, field_of, to_text}
use sockpost.Client.Commands.{quote}

-- The kinds of event, by their `op`.
pub data Kind : Type 0 where
  connected message wakeup delivery_timeout unreachable evicted error ping_check silent : Kind

kind_named : Text → Kind
kind_named s =
    if text_eq s (codes "connected")
    then connected
    else if text_eq s (codes "message")
    then message
    else if text_eq s (codes "wakeup")
    then wakeup
    else if text_eq s (codes "delivery_timeout")
    then delivery_timeout
    else if text_eq s (codes "unreachable")
    then unreachable
    else if text_eq s (codes "evicted")
    then evicted
    else if text_eq s (codes "error")
    then error
    else if text_eq s (codes "ping_check")
    then ping_check
    else silent

kind_of_value : Value → Kind
unfolding kind_named
kind_of_value (text s) = kind_named s
kind_of_value _ = silent

unfoldable pub kind_of : Request → Kind
unfolding kind_of_value
kind_of obj = kind_of_value (field_of (codes "op") obj)

-- What the listener writes: a line, an object as JSON, or a text on the standard error.
pub data Printed : Type 0 where
  line : Text → Printed
  as_json : Request → Printed
  error_line : Text → Printed
  waiting_for : (path : Text) → Printed

shown : Text → Request → Text
shown key obj = to_text (field_of key obj)

unfoldable pub message_line : Request → Text
unfolding shown quote
message_line obj =
    codes "message id="
    ++ (shown (codes "msg_id") obj
        ++ (codes " from="
            ++ (shown (codes "from") obj
                ++ (codes " at="
                    ++ (shown (codes "created_at") obj
                        ++ (codes " text=" ++ quote (field_of (codes "text") obj)))))))

unfoldable pub timeout_line : Request → Text
unfolding shown
timeout_line obj =
    codes "delivery-timeout id="
    ++ (shown (codes "msg_id") obj
        ++ (codes " target="
            ++ (shown (codes "target") obj
                ++ (codes " waited=" ++ (shown (codes "waited") obj ++ codes "s")))))

unfoldable pub unreachable_line : Request → Text
unfolding shown
unreachable_line obj =
    codes "unreachable id="
    ++ (shown (codes "msg_id") obj ++ (codes " target=" ++ shown (codes "target") obj))

unfoldable pub event_lines : Text → Request → Kind → List Printed
unfolding message_line timeout_line unreachable_line shown
event_lines channel obj connected = line (codes "connected id=" ++ channel) ∷ []
event_lines channel obj message = line (message_line obj) ∷ []
event_lines channel obj wakeup = line (codes "wakeup ts=" ++ shown (codes "ts") obj) ∷ []
event_lines channel obj delivery_timeout = line (timeout_line obj) ∷ []
event_lines channel obj unreachable = line (unreachable_line obj) ∷ []
event_lines channel obj evicted =
    line (codes "evicted id=" ++ (channel ++ (codes " reason=" ++ shown (codes "reason") obj))) ∷ []
event_lines channel obj error = error_line (shown (codes "error") obj) ∷ []
event_lines channel obj ping_check = []
event_lines channel obj silent = []

-- `_print_event`
unfoldable pub print_event : Request → Text → Bool → List Printed
unfolding event_lines kind_of
print_event obj channel json =
    if json then as_json obj ∷ [] else event_lines channel obj (kind_of obj)
