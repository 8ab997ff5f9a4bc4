-- ===== src/System/Forwards.antt =====
-- What a `sockpost forward` that ends with status 0 has done.
use sockpost.Common.{
  ℕ, suc, ◌≡◌, ◌++◌, Bool, [], ◌∷◌, Option, Text, codes, text_instance, if◌then◌else◌,
}
use sockpost.Common.Int.{ℤ}
use sockpost.Common.Result.{Result, ok}
use sockpost.Python.Decimal.{to_decimal}
use sockpost.Python.Value.{Request}
use sockpost.Daemon.State.{key_instance, Daemon, Moment, Problem}
use sockpost.Daemon.Requests.{Copy, handle_forward}
use sockpost.Daemon.Routing.{IsStored, IsRouted}
use sockpost.Daemon.Forwarding.{IsCopy}
use sockpost.Client.Settings.{ClientSettings, Outcome, exits, fail, note_dropped, traceback}
use sockpost.Client.Exchange.{Ending}
use sockpost.Client.Commands.{
  cmd_forward, forward_checks, forward_request, forwarded_lines, translate_unknown_op,
}
use sockpost.System.{talk}
use sockpost.System.Conclusions.{ended}

-- forwarded id=<id> src=<id> to=<channel> hops=<count>
abbrev forwarded_line : ℕ → Text → Copy → Text
forwarded_line id recipient copy =
    codes "forwarded id="
    ++ (to_decimal id
        ++ (codes " src="
            ++ (to_decimal copy.source_id
                ++ (codes " to=" ++ (recipient ++ (codes " hops=" ++ to_decimal copy.hops))))))

-- What a forward that ended with status 0 was given, printed and did.
abbrev pub IsForwarded :
    Moment
    → ClientSettings
    → Option Text
    → Option Text
    → Option Text
    → Option Text
    → Daemon
    → Outcome × Daemon
    → Type 0
IsForwarded w settings message_id from_arg to_arg note before (outcome, after) =
    (z : ℤ) × (forwarder recipient : Text) × (forward_checks settings message_id from_arg to_arg
      ≡ ok (z, forwarder, recipient))
    × (copy : Copy) × IsCopy before.settings (forward_request z forwarder recipient note) before.db
        copy
    × (outcome ≡ exits 0 (forwarded_line (suc before.db.last_id) recipient copy ∷ []))
    × IsStored w copy.mail before.db after.db
    × IsRouted w (suc before.db.last_id) copy.mail.sender copy.mail.recipient before after

module _ (error_text : Problem → Text) (shown : Text) (ending : Ending) (w : Moment) (conn : ℕ)
    (settings : ClientSettings) (d : Daemon) (message_id from_arg to_arg note : Option Text) where
  Claim : Outcome × Daemon → Type 0
  Claim run = run.0.code ≡ 0 → IsForwarded w settings message_id from_arg to_arg note d run

  run : Outcome × Daemon
  run = talk error_text shown ending w conn (cmd_forward settings message_id from_arg to_arg note) d

  module _ (z : ℤ) (f r : Text) where
    request : Request
    request = forward_request z f r note

    handled : Daemon
    handled = handle_forward w conn request d

    forwarding : Bool → Outcome × Daemon
    forwarding encodes =
        if encodes
        then (
          ended error_text shown ending settings note_dropped
              (translate_unknown_op (codes "forward")) (forwarded_lines r) request
              (codes "forwarded") conn d handled,
          handled,
        )
        else (fail traceback, d)
