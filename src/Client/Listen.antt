-- ===== src/Client/Listen.antt =====
-- client.py, `cmd_listen`: the listener as the steps that its surroundings make it take.
pub mod Writes
pub mod Waiting
use sockpost.Common.{
  ℕ, ◌*◌, Bool, true, false, [], ◌∷◌, ◌++◌, List, Option, if◌then◌else◌, leb, Text, codes,
}
use sockpost.Common.Result.{Result, ok, err}
use sockpost.Python.Value.{text, Request, field_of}
use sockpost.Client.Settings.{ClientSettings, Complaint, resolve_id}
use sockpost.Client.Exchange.{Line, blank_line, not_json, object}
use sockpost.Client.Events.{
  Printed, waiting_for, print_event, Kind, connected, message, wakeup, delivery_timeout,
  unreachable, evicted, error, ping_check, silent, kind_of,
}

-- Where the loop stands: before `_open`, reading lines, or returned with an exit status.
pub data Phase : Type 0 where
  opening reading : Phase
  returned : (code : ℕ) → Phase

-- `written` is what the daemon took, and `naps` the delays that were slept, before the jitter, which
-- makes each up to a quarter shorter or longer.
pub record Listener : Type 0 where
  pub phase : Phase
  pub backoff : ℕ
  pub warned : Bool
  pub printed : List Printed
  pub written : List Request
  pub naps : List ℕ

-- What happens to a listener: a connection, whose first write the daemon takes or not; an OSError of
-- `_open`; a line, whose answer is taken or not; the end of the lines; and a signal.
pub data Happening : Type 0 where
  opens : (takes : Bool) → Happening
  cannot_open : Happening
  reads : Line → (takes : Bool) → Happening
  ends : Happening
  interrupted : Happening

unfoldable pub connect_request : Text → Request
connect_request channel = (codes "op", text (codes "connect")) ∷ (codes "id", text channel) ∷ []

unfoldable pub auto_ack : Text → Request → Request
auto_ack channel obj =
    (codes "op", text (codes "ack"))
    ∷ (codes "msg_id", field_of (codes "msg_id") obj)
    ∷ (codes "from", text channel)
    ∷ []

unfoldable pub ping_ack_request : Text → Request → Request
ping_ack_request channel obj =
    (codes "op", text (codes "ping_ack"))
    ∷ (codes "probe_id", field_of (codes "probe_id") obj)
    ∷ (codes "id", text channel)
    ∷ []

-- min(backoff * 2, 30.0); every value is a whole number.
unfoldable pub next_backoff : ℕ → ℕ
next_backoff backoff = if leb (backoff * 2) 30 then backoff * 2 else 30

-- The handler of an OSError.
unfoldable pub lose : ClientSettings → Listener → Listener
unfolding next_backoff
lose settings l = record l {
  phase = opening;
  printed = if l.warned then l.printed else l.printed ++ waiting_for settings.socket_path ∷ [];
  warned = true;
  naps = l.naps ++ l.backoff ∷ [];
  backoff = next_backoff l.backoff;
}

-- `P.send_line` where an OSError is passed over.
unfoldable pub try_write : Bool → Request → Listener → Listener
try_write takes request l = if takes then record l { written = l.written ++ request ∷ [] } else l

unfoldable pub answer : Text → Bool → Request → Bool → Kind → Listener → Listener
unfolding try_write auto_ack ping_ack_request
answer channel manual_ack obj takes message l =
    if manual_ack then l else try_write takes (auto_ack channel obj) l
answer channel manual_ack obj takes ping_check l = try_write takes (ping_ack_request channel obj) l
answer channel manual_ack obj takes evicted l = record l { phase = returned 0 }
answer channel manual_ack obj takes connected l = l
answer channel manual_ack obj takes wakeup l = l
answer channel manual_ack obj takes delivery_timeout l = l
answer channel manual_ack obj takes unreachable l = l
answer channel manual_ack obj takes error l = l
answer channel manual_ack obj takes silent l = l

unfoldable pub take_line : Text → Bool → Bool → Line → Bool → Listener → Listener
unfolding answer print_event
take_line channel manual_ack json blank_line takes l = l
take_line channel manual_ack json not_json takes l = l
take_line channel manual_ack json (object obj) takes l =
    answer channel manual_ack obj takes (kind_of obj)
      (record l { printed = l.printed ++ print_event obj channel json })

unfoldable pub open_step : ClientSettings → Text → Happening → Listener → Listener
unfolding lose connect_request
open_step settings channel (opens true) l = record l {
  phase = reading;
  backoff = 1;
  warned = false;
  written = l.written ++ connect_request channel ∷ [];
}
open_step settings channel (opens false) l = lose settings l
open_step settings channel cannot_open l = lose settings l
open_step settings channel interrupted l = record l { phase = returned 0 }
open_step settings channel _ l = l

unfoldable pub read_step : ClientSettings → Text → Bool → Bool → Happening → Listener → Listener
unfolding lose take_line
read_step settings channel manual_ack json (reads next takes) l =
    take_line channel manual_ack json next takes l
read_step settings channel manual_ack json ends l = lose settings l
read_step settings channel manual_ack json interrupted l = record l { phase = returned 0 }
read_step settings channel manual_ack json _ l = l

pub phase_step : ClientSettings → Text → Bool → Bool → Happening → Phase → Listener → Listener
unfolding open_step read_step
phase_step settings channel manual_ack json happening opening l =
    open_step settings channel happening l
phase_step settings channel manual_ack json happening reading l =
    read_step settings channel manual_ack json happening l
phase_step settings channel manual_ack json happening (returned code) l = l

-- One turn of the loop; what cannot happen in a phase changes nothing.
unfoldable pub listen_step : ClientSettings → Text → Bool → Bool → Happening → Listener → Listener
unfolding phase_step
listen_step settings channel manual_ack json happening l =
    phase_step settings channel manual_ack json happening l.phase l

unfoldable pub listen_steps :
    ClientSettings → Text → Bool → Bool → List Happening → Listener → Listener
unfolding listen_step
listen_steps settings channel manual_ack json [] l = l
listen_steps settings channel manual_ack json (h ∷ hs) l =
    listen_steps settings channel manual_ack json hs
      (listen_step settings channel manual_ack json h l)

unfoldable pub new_listener : Listener
new_listener = record {
  phase = opening;
  backoff = 1;
  warned = false;
  printed = [];
  written = [];
  naps = [];
}

listening :
    ClientSettings
    → Bool
    → Bool
    → List Happening
    → Result Complaint Text
    → Result Complaint Listener
unfolding listen_steps new_listener
listening settings manual_ack json hs (err complaint) = err complaint
listening settings manual_ack json hs (ok channel) =
    ok (listen_steps settings channel manual_ack json hs new_listener)

-- `cmd_listen`, as far as what happens takes it; an id that is refused ends it with status 1.
unfoldable pub cmd_listen :
    ClientSettings → Option Text → Bool → Bool → List Happening → Result Complaint Listener
unfolding listening
cmd_listen settings channel_arg manual_ack json hs =
    listening settings manual_ack json hs (resolve_id settings channel_arg (codes "--id"))
