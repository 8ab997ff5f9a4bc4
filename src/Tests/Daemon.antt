-- ===== src/Tests/Daemon.antt =====
-- daemon.py on concrete inputs.
use sockpost.Common.{
  ℕ, ◌≡◌, refl, true, false, [], ◌∷◌, List, none, some, codes, text_eq, text_instance, nat_eq,
}
use sockpost.Common.Int.{pos}
use sockpost.Common.Dict.{get}
use sockpost.Common.Result.{ok}
use sockpost.Python.Value.{Request, text, int, field_of, to_int, number}
use sockpost.Protocol.Channel.{validate_channel}
use sockpost.Store.Tables.{Message, init_schema}
use sockpost.Store.Validity.{IsValid}
use sockpost.Store.History.{Succeeds}
use sockpost.Daemon.State.{Daemon, Moment, Settings, is_member}
use sockpost.Daemon.Loop.{Event, receives, closes, paces, start, run_events}
use sockpost.Daemon.Guard.{has_retry}
use sockpost.Daemon.Guard.Kept.{run_events-start-has_retry, run_events-start-IsSound}
use sockpost.Daemon.History.{run_events-start-IsValid, get_message-run_events}
use sockpost.Common.{text_lt}
use sockpost.Common.Dict.{put, remove}
use sockpost.Python.Space.{strip}
use sockpost.Python.Value.{to_text}
use sockpost.Store.Messages.{
  insert_message, reset_pending, pending_batch, mark_delivered, expire_orphans, get_message,
}
use sockpost.Store.Channels.{set_channel_state, reset_all_channels}
use sockpost.Daemon.Scheduler.{arm, push}
use sockpost.Daemon.State.{key_eq, reply, write_all}
use sockpost.Daemon.Delivery.{schedule_delivery, route, pace}
use sockpost.Daemon.Timers.{restore_wakeups, sweep_orphans, schedule_orphan_sweep}
use sockpost.Daemon.Requests.{utf8_size, handle_send}
use sockpost.Daemon.Sessions.{handle_connect}
use sockpost.Daemon.Loop.{fresh}
use sockpost.Common.{◌&&◌, false}
use sockpost.Store.Tables.{pending, is_pending}
use sockpost.Daemon.Scheduler.Soundness.{IsSound}
use sockpost.Daemon.State.{ack_refused, Reason, key_instance}
use sockpost.Daemon.Delivery.{deliver_one}
use sockpost.Daemon.Settling.{handle_ack}
use sockpost.Daemon.Acks.{IsAcknowledged, handle_ack-IsAcknowledged, handle_ack-refused, IsReason}
use sockpost.Daemon.Handing.{Handed, deliver_one-Handed}

abbrev pub settings : Settings
settings = record {
  redeliver_gap = pos 120;
  drain_batch = pos 10;
  ack_timeout_online = pos 30;
  ack_timeout_offline = pos 60;
  max_body_bytes = pos 1048576;
  max_forward_hops = pos 3;
  orphan_sweep_interval = pos 900;
}

abbrev pub at : ℕ → Moment
at time = record {
  time = time;
  now = codes "t5";
  redelivery_cutoff = codes "t1";
  orphan_cutoff = codes "t0";
  takes = λ conn. true;
  refuses = false;
}

-- A moment at which no peer takes a write.
abbrev pub deaf : Moment
deaf = record (at 3) { takes = λ conn. false }

abbrev pub connects : Request
connects = (codes "op", text (codes "connect")) ∷ (codes "id", text (codes "worker")) ∷ []

abbrev pub sends : Request
sends =
    (codes "op", text (codes "send"))
    ∷ (codes "from", text (codes "planner"))
    ∷ (codes "to", text (codes "worker"))
    ∷ (codes "text", text (codes "go"))
    ∷ []

abbrev acks : Request
acks =
    (codes "op", text (codes "ack"))
    ∷ (codes "msg_id", int (pos 1))
    ∷ (codes "from", text (codes "worker"))
    ∷ []

abbrev queued_events : List (Moment × Event)
queued_events = (at 0, receives 1 connects) ∷ (at 1, receives 2 sends) ∷ []

-- A worker connects, a planner sends, the pacer delivers.
abbrev opening : List (Moment × Event)
opening =
    (at 0, receives 1 connects) ∷ (at 1, receives 2 sends) ∷ (at 2, paces (codes "worker")) ∷ []

queued_one : Daemon
queued_one = run_events queued_events (start (at 0) settings none)

unfoldable pub after_delivery : Daemon
after_delivery = run_events opening (start (at 0) settings none)

one_inflight : is_member 1 after_delivery.inflight ≡ true
unfolding after_delivery run_events start fresh init_schema reset_all_channels restore_wakeups
    schedule_orphan_sweep sweep_orphans expire_orphans arm push get put remove text_eq text_lt
    field_of validate_channel strip to_text handle_connect write_all reset_pending set_channel_state
    schedule_delivery reply handle_send utf8_size insert_message route pace pending_batch
    mark_delivered key_eq
one_inflight = refl

run_events-start-has_retry_example : has_retry 1 after_delivery.scheduler ≡ true
unfolding after_delivery
run_events-start-has_retry_example =
    run_events-start-has_retry (at 0) settings none opening 1 one_inflight

pub after_delivery-IsValid : IsValid after_delivery.db
unfolding after_delivery
after_delivery-IsValid = run_events-start-IsValid (at 0) settings opening

pub after_delivery-IsSound : IsSound after_delivery.scheduler
unfolding after_delivery
after_delivery-IsSound = run_events-start-IsSound (at 0) settings none opening

abbrev pub first_message : Message
first_message = record {
  id = 1;
  recipient = codes "worker";
  sender = codes "planner";
  body = codes "go";
  created_at = codes "t5";
  state = pending;
  resolved_at = none;
  delivered_at = some (codes "t5");
  failure_reported_at = none;
}

pub first_found : get_message (pos 1) after_delivery.db ≡ some first_message
unfolding after_delivery run_events start fresh init_schema reset_all_channels restore_wakeups
    schedule_orphan_sweep sweep_orphans expire_orphans arm push get put remove text_eq text_lt
    field_of validate_channel strip to_text handle_connect write_all reset_pending set_channel_state
    schedule_delivery reply handle_send utf8_size insert_message route pace pending_batch
    mark_delivered key_eq get_message
first_found = refl

get_message-run_events_example :
    (m' : Message) × (get_message
        (pos 1)
        (run_events ((at 3, receives 1 acks) ∷ (at 4, closes 1) ∷ []) after_delivery).db
      ≡ some m')
    × Succeeds first_message m'
get_message-run_events_example =
    get_message-run_events ((at 3, receives 1 acks) ∷ (at 4, closes 1) ∷ []) after_delivery 1
      first_message after_delivery-IsValid first_found

deliver_one-Handed_example :
    Handed (at 2) (codes "worker") queued_one (deliver_one (at 2) (codes "worker") queued_one)
deliver_one-Handed_example = deliver_one-Handed (at 2) (codes "worker") queued_one

acks_id : to_int (field_of (codes "msg_id") acks) ≡ number (pos 1)
unfolding to_int field_of get text_eq
acks_id = refl

acks_from : validate_channel (field_of (codes "from") acks) ≡ ok (codes "worker")
unfolding validate_channel field_of get text_eq strip to_text
acks_from = refl

is_recipient :
    (is_pending first_message.state && text_eq first_message.recipient (codes "worker")) ≡ true
unfolding text_eq
is_recipient = refl

handle_ack-IsAcknowledged_example :
    IsAcknowledged (codes "t5") 1 first_message (handle_ack (at 3) 1 acks after_delivery)
handle_ack-IsAcknowledged_example =
    handle_ack-IsAcknowledged (at 3) 1 1 (codes "worker") first_message after_delivery
      after_delivery-IsValid first_found acks acks_id acks_from after_delivery-IsSound is_recipient

abbrev foreign_acks : Request
foreign_acks = (codes "msg_id", int (pos 1)) ∷ (codes "from", text (codes "planner")) ∷ []

foreign_id : to_int (field_of (codes "msg_id") foreign_acks) ≡ number (pos 1)
unfolding to_int field_of get text_eq
foreign_id = refl

foreign_from : validate_channel (field_of (codes "from") foreign_acks) ≡ ok (codes "planner")
unfolding validate_channel field_of get text_eq strip to_text
foreign_from = refl

is_foreign :
    (is_pending first_message.state && text_eq first_message.recipient (codes "planner")) ≡ false
unfolding text_eq
is_foreign = refl

handle_ack-refused_example :
    (reason : Reason) × (handle_ack (at 3) 2 foreign_acks after_delivery
      ≡ reply (at 3) 2 (ack_refused (int (pos 1)) reason) after_delivery)
    × IsReason (codes "planner") first_message reason
handle_ack-refused_example =
    handle_ack-refused (at 3) 2 1 (codes "planner") first_message after_delivery
      after_delivery-IsValid first_found foreign_acks foreign_id foreign_from is_foreign
