-- ===== src/System.antt =====
-- A command of client.py against the daemon of daemon.py: one request, its handler, and the replies.
pub mod Answers
pub mod Conclusions
pub mod Sends
pub mod Forwards
pub mod Acks
pub mod Wakeups
use sockpost.Common.{
  ℕ, Bool, true, false, List, [], ◌∷◌, map, if◌then◌else◌, ◌==◌, Text, drop, length, ◌≡◌, refl,
  ◌++◌, drop-length-append, ==_refl,
}
use sockpost.Python.Value.{Request}
use sockpost.Client.Settings.{Outcome}
use sockpost.Client.Exchange.{
  Line, object, Ending, Contact, stream, Answer, unencodable, encodable, roundtrip, Command,
  finished, asks,
}
use sockpost.Daemon.State.{Daemon, Moment, Problem, Payload}
use sockpost.Daemon.Wire.{as_object}
use sockpost.Daemon.Loop.{receives, step}

-- What was written to one connection.
unfoldable pub written_to : ℕ → List (ℕ × Payload) → List Payload
written_to conn [] = []
written_to conn ((c, payload) ∷ writes) =
    let rest = written_to conn writes in if c == conn then payload ∷ rest else rest

-- The wording of what the daemon writes, and how a connection ends once it has been answered.
module _ (error_text : Problem → Text) (shown : Text) (ending : Ending) where
  unfoldable pub lines_of : List Payload → List Line
  lines_of payloads = map (λ payload. object (as_object error_text shown payload)) payloads

  -- What a client meets that asks a daemon which went from one state to another.
  unfoldable pub contact_of : ℕ → Daemon → Daemon → Contact
  unfolding lines_of
  contact_of conn before after =
      stream (lines_of (written_to conn (drop (length before.sent) after.sent))) ending

  unfoldable pub asked :
      ℕ → Request → Text → (Answer → Outcome) → Daemon → Daemon → Outcome × Daemon
  unfolding contact_of
  asked conn request expect conclude before after =
      (conclude (roundtrip request expect (contact_of conn before after)), after)

  -- A command on a connection to the daemon. A request that cannot be encoded is not sent.
  unfoldable pub talk : Moment → ℕ → Command → Daemon → Outcome × Daemon
  unfolding asked
  talk w conn (finished outcome) d = (outcome, d)
  talk w conn (asks request expect conclude) d =
      if encodable request
      then asked conn request expect conclude d (step w (receives conn request) d)
      else (conclude unencodable, d)

-- What one write to the connection shows, and none.
pub written-one :
    (conn : ℕ) (payload : Payload) (before : List (ℕ × Payload))
    → written_to conn (drop (length before) (before ++ (conn, payload) ∷ [])) ≡ payload ∷ []
unfolding written_to
written-one conn payload before = rw (drop-length-append before, ==_refl conn) refl

pub written-nothing :
    (conn : ℕ) (before : List (ℕ × Payload)) → written_to conn (drop (length before) before) ≡ []
unfolding written_to
written-nothing conn before = rw (drop-all before) refl
  where
    drop-all : (xs : List (ℕ × Payload)) → drop (length xs) xs ≡ []
    drop-all [] = refl
    drop-all (x ∷ xs) = drop-all xs
