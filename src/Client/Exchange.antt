-- ===== src/Client/Exchange.antt =====
-- client.py, `_roundtrip`: one request to the daemon, and the first reply that is waited for.
pub mod Replies
use sockpost.Common.{
  Bool, true, false, not, ◌&&◌, ◌||◌, List, [], ◌∷◌, Option, none, some, leb, if◌then◌else◌, Text,
  codes, text_eq, all,
}
use sockpost.Python.Value.{Value, text, Request, field_of, to_text}
use sockpost.Protocol.Encoding.{encodable_value}
use sockpost.Client.Settings.{
  ClientSettings, Complaint, no_reply, traceback, Outcome, fail, unreachable_hint,
}

-- A line that the daemon wrote: white space, no JSON, or an object.
pub data Line : Type 0 where
  blank_line not_json : Line
  object : Request → Line

-- The exceptions of a socket: BrokenPipeError or ConnectionResetError, and any other OSError.
pub data Trouble : Type 0 where
  dropped out_of_reach : Trouble

-- How the lines end: the daemon closes, or reading fails.
pub data Ending : Type 0 where
  closed : Ending
  broken : Trouble → Ending

-- What becomes of an attempt to reach the daemon.
pub data Contact : Type 0 where
  no_connection : Contact
  no_write : Trouble → Contact
  stream : List Line → Ending → Contact

-- What `_roundtrip` returns, None included, or raises.
pub data Answer : Type 0 where
  replied : Option Request → Answer
  troubled : Trouble → Answer
  unencodable : Answer

-- Whether `encode` of a request of the client succeeds.
unfoldable pub encodable : Request → Bool
unfolding encodable_value
encodable [] = true
encodable ((key, value) ∷ request) = encodable_value value && encodable request

-- `value == s`
unfoldable pub is_text : Text → Value → Bool
is_text s (text t) = text_eq t s
is_text s _ = false

-- `obj.get("op") == op`
unfoldable pub has_op : Text → Request → Bool
unfolding is_text
has_op op obj = is_text op (field_of (codes "op") obj)

pub at_ending : Ending → Answer
at_ending closed = replied none
at_ending (broken trouble) = troubled trouble

pub first_wanted : Text → List Line → Ending → Answer
unfolding has_op at_ending
first_wanted expect [] ending = at_ending ending
first_wanted expect (blank_line ∷ lines) ending = first_wanted expect lines ending
first_wanted expect (not_json ∷ lines) ending = first_wanted expect lines ending
first_wanted expect (object obj ∷ lines) ending =
    let rest = first_wanted expect lines ending in
    if has_op expect obj || has_op (codes "error") obj then replied (some obj) else rest

-- What comes of a request that can be encoded.
unfoldable pub exchange : Text → Contact → Answer
unfolding first_wanted
exchange expect no_connection = troubled out_of_reach
exchange expect (no_write trouble) = troubled trouble
exchange expect (stream lines ending) = first_wanted expect lines ending

after_connecting : Bool → Answer → Contact → Answer
after_connecting encodes answer no_connection = troubled out_of_reach
after_connecting true answer contact = answer
after_connecting false answer contact = unencodable

-- `_roundtrip`
unfoldable pub roundtrip : Request → Text → Contact → Answer
unfolding exchange after_connecting encodable
roundtrip request expect contact =
    after_connecting (encodable request) (exchange expect contact) contact

-- What a command does: it ends, or it asks the daemon first.
pub data Command : Type 0 where
  finished : Outcome → Command
  asks : (request : Request) → (expect : Text) → (Answer → Outcome) → Command

unfoldable pub run_command : Command → Contact → Outcome
unfolding roundtrip
run_command (finished outcome) contact = outcome
run_command (asks request expect conclude) contact = conclude (roundtrip request expect contact)

replied_with : (Text → Complaint) → (Request → Outcome) → Option Request → Outcome
replied_with refuse done none = fail no_reply
replied_with refuse done (some reply) =
    if has_op (codes "error") reply
    then fail (refuse (to_text (field_of (codes "error") reply)))
    else done reply

-- What the commands make of an answer, but for what they say when the daemon drops them (`lost`) or
-- refuses, and what they print when it is done.
unfoldable pub concluded :
    ClientSettings → Complaint → (Text → Complaint) → (Request → Outcome) → Answer → Outcome
unfolding replied_with has_op
concluded settings lost refuse done (troubled dropped) = fail lost
concluded settings lost refuse done (troubled out_of_reach) = fail (unreachable_hint settings)
concluded settings lost refuse done unencodable = fail traceback
concluded settings lost refuse done (replied reply) = replied_with refuse done reply
