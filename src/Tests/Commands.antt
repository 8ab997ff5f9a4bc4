-- ===== src/Tests/Commands.antt =====
-- Commands of client.py against a daemon, on concrete inputs.
use sockpost.Python.Value.{to_int}
use sockpost.Client.Commands.{cmd_forward}
use sockpost.Common.{
  ◌≡◌, ◌↔◌, refl, [], true, none, some, codes, text_eq, text_instance, nat_eq, text_lt, Text,
}
use sockpost.Common.Dict.{get, put, remove}
use sockpost.Common.Int.{pos}
use sockpost.Common.Result.{ok}
use sockpost.Python.Space.{strip, lower}
use sockpost.Python.Decimal.{int_text, digit}
use sockpost.Python.Value.{field_of, to_text, truth_of}
use sockpost.Protocol.Channel.{validate_channel}
use sockpost.Store.Tables.{init_schema}
use sockpost.Store.Messages.{
  insert_message, reset_pending, pending_batch, mark_delivered, expire_orphans, get_message,
}
use sockpost.Store.Channels.{set_channel_state, reset_all_channels}
use sockpost.Daemon.Scheduler.{arm, push}
use sockpost.Daemon.State.{Problem, key_instance, key_eq, reply, write_all}
use sockpost.Daemon.Wire.{as_object}
use sockpost.Daemon.Delivery.{schedule_delivery, route, pace}
use sockpost.Daemon.Timers.{restore_wakeups, sweep_orphans, schedule_orphan_sweep}
use sockpost.Daemon.Requests.{utf8_size, handle_send}
use sockpost.Daemon.Sessions.{handle_connect}
use sockpost.Daemon.Loop.{fresh, start, run_events, step}
use sockpost.Client.Settings.{ClientSettings, optional, channel_or_complaint, resolve_id}
use sockpost.Client.Exchange.{closed, Command, encodable, roundtrip, has_op, concluded}
use sockpost.Client.Commands.{
  cmd_send, send_checks, send_request, sent_outcome, sent_lines, cmd_ack, number_arg, after_checks,
}
use sockpost.System.{talk, asked, contact_of, lines_of, written_to}
use sockpost.System.Sends.{IsSent, cmd_send-IsSent}
use sockpost.System.Wakeups.{IsWakeupSet, cmd_wakeup-IsWakeupSet}
use sockpost.Protocol.Interval.{parse_interval}
use sockpost.Daemon.Settling.{handle_wakeup_set}
use sockpost.Client.Wakeup.{
  cmd_wakeup, wakeup_checks, wakeup_request, interval_request, wakeup_outcome, wakeup_lines,
}
use sockpost.System.Acks.{IsAckedIn, cmd_ack-IsAckedIn}
use sockpost.Tests.Daemon.{
  at, after_delivery, after_delivery-IsValid, after_delivery-IsSound, first_message, first_found,
}

abbrev pub client : ClientSettings
client = record {
  socket_path = codes "/tmp/s.sock";
  autostart = true;
  default_id = some (codes "planner");
}

abbrev pub wording : Problem → Text
wording problem = codes "refused"

-- `sockpost send --to worker --text again`, as the planner
abbrev send_again : Command
send_again = cmd_send client none (some (codes "worker")) (some (codes "again"))

send_again-status : (talk wording [] closed (at 3) 2 send_again after_delivery).0.code ≡ 0
unfolding after_delivery run_events start fresh init_schema reset_all_channels restore_wakeups
    schedule_orphan_sweep sweep_orphans expire_orphans arm push get put remove text_eq text_lt
    field_of validate_channel strip to_text handle_connect write_all reset_pending set_channel_state
    schedule_delivery reply handle_send utf8_size insert_message route pace pending_batch
    mark_delivered key_eq get_message talk asked contact_of lines_of written_to as_object cmd_send
    send_checks resolve_id optional channel_or_complaint after_checks send_request sent_outcome
    encodable roundtrip has_op concluded sent_lines step
send_again-status = refl

cmd_send-IsSent_example :
    IsSent
      (at 3)
      client
      none
      (some (codes "worker"))
      (some (codes "again"))
      after_delivery
      (talk wording [] closed (at 3) 2 send_again after_delivery)
cmd_send-IsSent_example =
    cmd_send-IsSent wording [] closed (at 3) 2 client none (some (codes "worker"))
      (some (codes "again")) after_delivery after_delivery-IsValid after_delivery-IsSound
      send_again-status

ack_number : number_arg (some (codes "1")) ≡ ok (pos 1)
unfolding number_arg int_text strip digit
ack_number = refl

ack_channel : resolve_id client (some (codes "worker")) (codes "--from") ≡ ok (codes "worker")
unfolding resolve_id validate_channel strip to_text channel_or_complaint
ack_channel = refl

cmd_ack-IsAckedIn_example :
    let run =
      talk wording [] closed
        (at 3)
        2
        (cmd_ack client (some (codes "1")) (some (codes "worker")))
        after_delivery in
    (run.0.code ≡ 0) ↔ IsAckedIn 1 run.1
cmd_ack-IsAckedIn_example =
    cmd_ack-IsAckedIn wording [] closed (at 3) 2 client 1 (codes "worker") after_delivery
      (some (codes "1")) (some (codes "worker")) first_message after_delivery-IsValid
      after_delivery-IsSound first_found ack_number ack_channel refl

-- `sockpost forward 1 --to auditor --note see`, as the planner
abbrev forward_first : Command
forward_first =
    cmd_forward client (some (codes "1")) none (some (codes "auditor")) (some (codes "see"))

-- `sockpost wakeup --id planner 10m`
abbrev wake_planner : Command
wake_planner = cmd_wakeup client none (some (codes "10m"))

wake_planner-status : (talk wording [] closed (at 3) 2 wake_planner after_delivery).0.code ≡ 0
unfolding after_delivery run_events start fresh init_schema reset_all_channels restore_wakeups
    schedule_orphan_sweep sweep_orphans expire_orphans arm push get put remove text_eq text_lt
    field_of validate_channel strip to_text handle_connect write_all reset_pending set_channel_state
    schedule_delivery reply handle_send utf8_size insert_message route pace pending_batch
    mark_delivered key_eq get_message talk asked contact_of lines_of written_to as_object resolve_id
    optional channel_or_complaint after_checks encodable roundtrip has_op concluded step cmd_wakeup
    wakeup_checks wakeup_request interval_request wakeup_outcome wakeup_lines parse_interval
    handle_wakeup_set lower digit truth_of to_int
wake_planner-status = refl

cmd_wakeup-IsWakeupSet_example :
    IsWakeupSet
      (at 3)
      client
      none
      (some (codes "10m"))
      (talk wording [] closed (at 3) 2 wake_planner after_delivery)
cmd_wakeup-IsWakeupSet_example =
    cmd_wakeup-IsWakeupSet wording [] closed (at 3) 2 client after_delivery none
      (some (codes "10m")) after_delivery-IsValid after_delivery-IsSound wake_planner-status
