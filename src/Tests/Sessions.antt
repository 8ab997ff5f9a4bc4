-- ===== src/Tests/Sessions.antt =====
-- Connects and disconnects of daemon.py on concrete inputs.
use sockpost.Common.{◌≡◌, refl, false, [], ◌∷◌, none, some, codes, text_eq, text_instance, nat_eq}
use sockpost.Common.Dict.{get}
use sockpost.Python.Value.{field_of}
use sockpost.Protocol.Channel.{validate_channel}
use sockpost.Store.Tables.{init_schema}
use sockpost.Daemon.Loop.{start, run_events}
use sockpost.Common.{text_lt}
use sockpost.Common.Dict.{put, remove}
use sockpost.Python.Space.{strip}
use sockpost.Python.Value.{to_text}
use sockpost.Store.Messages.{
  insert_message, reset_pending, pending_batch, mark_delivered, expire_orphans, get_message,
}
use sockpost.Store.Channels.{set_channel_state, reset_all_channels}
use sockpost.Daemon.Scheduler.{arm, push}
use sockpost.Daemon.State.{key_eq, reply, write_all}
use sockpost.Daemon.Delivery.{schedule_delivery, route, pace}
use sockpost.Daemon.Timers.{restore_wakeups, sweep_orphans, schedule_orphan_sweep}
use sockpost.Daemon.Requests.{utf8_size, handle_send}
use sockpost.Daemon.Sessions.{handle_connect}
use sockpost.Daemon.Loop.{fresh}
use sockpost.Common.{false}
use sockpost.Daemon.State.{key_instance}
use sockpost.Daemon.Delivery.{receivers_of}
use sockpost.Daemon.Sessions.{close_connection}
use sockpost.Daemon.Ownership.{evicted-close, first_channel-close, lost_reply-close}
use sockpost.Tests.Daemon.{at, deaf, after_delivery}

worker_served : get 1 after_delivery.serving ≡ some (codes "worker")
unfolding after_delivery run_events start fresh init_schema reset_all_channels restore_wakeups
    schedule_orphan_sweep sweep_orphans expire_orphans arm push get put remove text_eq text_lt
    field_of validate_channel strip to_text handle_connect write_all reset_pending set_channel_state
    schedule_delivery reply handle_send utf8_size insert_message route pace pending_batch
    mark_delivered key_eq get_message
worker_served = refl

evicted-close_example :
    receivers_of
      (codes "worker")
      (close_connection (at 4) 1 (handle_connect (at 3) 7 (codes "worker") after_delivery))
    ≡ 7 ∷ []
evicted-close_example =
    evicted-close (at 3) (at 4) 1 7 (codes "worker") after_delivery worker_served refl

names_differ : text_eq (codes "archive") (codes "worker") ≡ false
unfolding text_eq
names_differ = refl

first_channel-close_example :
    receivers_of (codes "worker") (
      close_connection (at 5) 7 (
        handle_connect
          (at 4)
          7
          (codes "archive")
          (handle_connect (at 3) 7 (codes "worker") after_delivery)))
    ≡ 7 ∷ []
first_channel-close_example =
    first_channel-close (at 3) (at 4) (at 5) 7 (codes "worker") (codes "archive") after_delivery
      names_differ refl

nobody_served : get 7 after_delivery.serving ≡ none
unfolding after_delivery run_events start fresh init_schema reset_all_channels restore_wakeups
    schedule_orphan_sweep sweep_orphans expire_orphans arm push get put remove text_eq text_lt
    field_of validate_channel strip to_text handle_connect write_all reset_pending set_channel_state
    schedule_delivery reply handle_send utf8_size insert_message route pace pending_batch
    mark_delivered key_eq get_message
nobody_served = refl

lost_reply-close_example :
    receivers_of
      (codes "worker")
      (close_connection (at 4) 7 (handle_connect deaf 7 (codes "worker") after_delivery))
    ≡ 7 ∷ []
lost_reply-close_example =
    lost_reply-close deaf (at 4) 7 (codes "worker") after_delivery refl nobody_served
