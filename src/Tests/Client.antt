-- ===== src/Tests/Client.antt =====
-- The client, the log and the launch on concrete inputs.
use sockpost.Common.Dict.{Dict, get, put, remove}
use sockpost.Python.Value.{Request, field_of, to_text}
use sockpost.Common.{text_eq, text_instance}
use sockpost.Python.Decimal.{to_decimal}
use sockpost.Daemon.Probes.{
  Probes, start_probe, finish_probe, ask_all, probe_name, collect_ping_ack, results_for, acks_of,
  or_no_one,
}
use sockpost.Daemon.Probes.Honesty.{has_listener, is_named, collect_all, finish_probe-named}
use sockpost.Common.{
  ℕ, ◌≡◌, ◌==◌, not, ◌↔◌, ◌≤◌, refl, Bool, true, false, [], ◌∷◌, List, none, some, codes, Text,
  text_instance, length,
}
use sockpost.Common.Int.{pos}
use sockpost.Python.Value.{Value, text, int}
use sockpost.Daemon.State.{message}
use sockpost.Daemon.Wire.{as_object}
use sockpost.Daemon.Log.{LogFiles, keys_one_line, write_log, IsLogged, write_log-IsLogged}
use sockpost.Daemon.Launch.{listening, launch, IsLaunched, launch-IsLaunched}
use sockpost.Client.Exchange.{object}
use sockpost.Client.Events.{print_event}
use sockpost.Client.Events.Lines.{IsShown, message_prefix, print_event-IsShown}
use sockpost.Client.Listen.{Happening, opens, cannot_open, reads, ends, listen_steps, new_listener}
use sockpost.Client.Listen.Waiting.{IsPatient, listen_steps-IsPatient}
use sockpost.Client.Process.{PidFile, locked, signalled, cmd_stop, exited, ensure_daemon}
use sockpost.Client.Process.Stopping.{IsStopped, cmd_stop_iff}
use sockpost.Client.Process.Starting.{IsReached, ensure_daemon_iff}
use sockpost.Tests.Commands.{client, wording}

-- A text that would be a line of its own.
abbrev forged : Text
forged = codes "a\nqueued id=1"

print_event-IsShown_example : IsShown (message_prefix 7 (codes "planner") (codes "t5")) forged (
    print_event
      (as_object wording [] (message 7 (codes "planner") forged (codes "t5")))
      (codes "worker")
      false)
print_event-IsShown_example =
    print_event-IsShown wording [] 7 (codes "planner") forged (codes "t5") (codes "worker") refl
      refl

abbrev arrival : Happening
arrival =
    reads (object (as_object wording [] (message 7 (codes "planner") forged (codes "t5")))) true

abbrev happenings : List Happening
happenings = cannot_open ∷ cannot_open ∷ opens true ∷ arrival ∷ ends ∷ []

listen_steps-IsPatient_example :
    IsPatient (listen_steps client (codes "worker") false false happenings new_listener)
listen_steps-IsPatient_example =
    listen_steps-IsPatient client (codes "worker") false false happenings

abbrev pid_file : PidFile
pid_file = locked (some (codes "42"))

abbrev soon_gone : ℕ → Bool
soon_gone i = i == 0

cmd_stop-iff_example :
    ((cmd_stop pid_file signalled soon_gone).code ≡ 0) ↔ IsStopped pid_file signalled soon_gone
cmd_stop-iff_example = cmd_stop_iff pid_file signalled soon_gone

abbrev soon_up : ℕ → Bool
soon_up i = not (i == 0)

ensure_daemon-iff_example :
    ((ensure_daemon client (exited 0) soon_up).naps ≤ 50)
    × (((ensure_daemon client (exited 0) soon_up).answers ≡ true)
        ↔ IsReached client (exited 0) soon_up)
ensure_daemon-iff_example = ensure_daemon_iff client (exited 0) soon_up

abbrev fields : List (Text × Value)
fields = (codes "channel", text forged) ∷ (codes "msg_id", int (pos 7)) ∷ []

one_line_keys : keys_one_line fields ≡ true
unfolding keys_one_line
one_line_keys = refl

abbrev log_files : LogFiles
log_files = record { current = some (codes "ts=t4 event=x\n"); rotated = none }

write_log-IsLogged_example :
    IsLogged length 10 log_files (write_log length 10 (codes "t5") (codes "acked") fields log_files)
write_log-IsLogged_example =
    write_log-IsLogged length 10 (codes "t5") (codes "acked") fields log_files refl refl
      one_line_keys

launch-IsLaunched_example :
    IsLaunched
      (codes "/tmp/s.sock")
      false
      listening
      none
      (launch (codes "t5") (codes "/tmp/s.sock") false listening none)
launch-IsLaunched_example =
    launch-IsLaunched (codes "t5") (codes "/tmp/s.sock") false listening none

abbrev listeners : Dict Text (List ℕ)
listeners = (codes "worker", 1 ∷ []) ∷ []

abbrev no_probes : Probes
no_probes = record { sequence = 0; running = []; checks = [] }

abbrev pong : Request
pong =
    (codes "op", text (codes "ping_ack"))
    ∷ (codes "probe_id", text (codes "p1-100"))
    ∷ (codes "id", text (codes "worker"))
    ∷ []

abbrev both : List Text
both = codes "worker" ∷ codes "nobody" ∷ []

worker_answers :
    let (id, started) = start_probe 100 listeners both no_probes in
    get (codes "worker") (finish_probe id both (collect_all ((103, pong) ∷ []) started)).0
    ≡ some (some 3)
unfolding start_probe finish_probe collect_all ask_all probe_name put remove get text_eq to_decimal
    collect_ping_ack field_of to_text results_for acks_of or_no_one
worker_answers = refl

finish_probe-named_example :
    (has_listener listeners (codes "worker") ≡ true)
    × (is_named (start_probe 100 listeners both no_probes).0 (codes "worker") ((103, pong) ∷ [])
        ≡ true)
finish_probe-named_example =
    finish_probe-named 100 listeners both no_probes ((103, pong) ∷ []) (codes "worker") 3
      worker_answers
