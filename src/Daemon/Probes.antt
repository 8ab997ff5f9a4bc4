-- ===== src/Daemon/Probes.antt =====
-- daemon.py, the ping probes: `_run_ping_probe` up to its wait and behind it, and `_collect_ping_ack`.
pub mod Honesty
use sockpost.Common.{
  ℕ, ◌+◌, ◌-◌, Bool, false, ◌||◌, List, [], ◌∷◌, ◌++◌, Option, none, some, leb, length, Text, codes,
  text_instance,
}
use sockpost.Common.Dict.{Dict, get, put, remove}
use sockpost.Python.Decimal.{to_decimal}
use sockpost.Python.Value.{Value, text, Request, field_of, to_text}

-- One probe: when each target was asked, how long each took to answer, and its event.
pub record Probe : Type 0 where
  pub sent : Dict Text ℕ
  pub acks : Dict Text ℕ
  pub done : Bool

-- `ping_sequence` and `ping_probes`, and the checks that were written: to which connection, for which
-- probe. Times are in milliseconds.
pub record Probes : Type 0 where
  pub sequence : ℕ
  pub running : Dict Text Probe
  pub checks : List (ℕ × Text)

unfoldable pub probe_name : ℕ → ℕ → Text
probe_name sequence time = b'p' ∷ (to_decimal sequence ++ (b'-' ∷ to_decimal time))

unfoldable pub or_no_one : Option (List ℕ) → List ℕ
or_no_one none = []
or_no_one (some conns) = conns

pub ask : Text → Text → List ℕ → ℕ → Probe × List (ℕ × Text) → Probe × List (ℕ × Text)
unfolding put
ask id target [] time (probe, checks) = (probe, checks)
ask id target (conn ∷ conns) time (probe, checks) =
    (record probe { sent = put target time probe.sent }, checks ++ (conn, id) ∷ [])

-- The loop over the targets, which asks the first connection of each.
unfoldable pub ask_all :
    Text → Dict Text (List ℕ) → ℕ → List Text → Probe × List (ℕ × Text) → Probe × List (ℕ × Text)
unfolding ask or_no_one
ask_all id receivers time [] state = state
ask_all id receivers time (target ∷ targets) state =
    ask_all id receivers time targets (ask id target (or_no_one (get target receivers)) time state)

-- `_run_ping_probe` up to its wait: the id of the probe, and the state with it.
unfoldable pub start_probe : ℕ → Dict Text (List ℕ) → List Text → Probes → Text × Probes
unfolding ask_all probe_name put
start_probe time receivers targets p =
    let sequence = p.sequence + 1 in
    let id = probe_name sequence time in
    let (probe, checks) =
      ask_all id receivers time targets (record { sent = []; acks = []; done = false }, p.checks) in
    (id, record { sequence = sequence; running = put id probe p.running; checks = checks })

pub with_ack : ℕ → Text → Probe → Option ℕ → Probe
unfolding put
with_ack time target probe none = probe
with_ack time target probe (some asked) =
    let acks = put target (time - asked) probe.acks in
    record probe { acks = acks; done = probe.done || leb (length probe.sent) (length acks) }

pub acked_in : ℕ → Text → Text → Option Probe → Dict Text Probe → Dict Text Probe
unfolding with_ack
acked_in time id target none probes = probes
acked_in time id target (some probe) probes =
    put id (with_ack time target probe (get target probe.sent)) probes

-- The key of `self.ping_probes.get(request.get("probe_id"))`: the ids are texts. A list or an object
-- raises a TypeError, which changes nothing either.
pub probe_id : Value → Option Text
probe_id (text s) = some s
probe_id _ = none

pub collect : ℕ → Option Text → Text → Probes → Probes
unfolding acked_in
collect time none target p = p
collect time (some id) target p = record p {
  running = acked_in time id target (get id p.running) p.running;
}

-- `_collect_ping_ack`
unfoldable pub collect_ping_ack : ℕ → Request → Probes → Probes
unfolding collect probe_id to_text
collect_ping_ack time request p =
    collect time (probe_id (field_of (codes "probe_id") request))
      (to_text (field_of (codes "id") request)) p

unfoldable pub acks_of : Option Probe → Dict Text ℕ
acks_of none = []
acks_of (some probe) = probe.acks

unfoldable pub results_for : List Text → Dict Text ℕ → Dict Text (Option ℕ)
results_for [] acks = []
results_for (target ∷ targets) acks = put target (get target acks) (results_for targets acks)

-- What `_run_ping_probe` does once it has waited: the results that it sends, and the state without it.
unfoldable pub finish_probe : Text → List Text → Probes → Dict Text (Option ℕ) × Probes
unfolding acks_of results_for remove
finish_probe id targets p =
    (results_for targets (acks_of (get id p.running)), record p { running = remove id p.running })
