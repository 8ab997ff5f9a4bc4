-- ===== src/Tests/Sends.antt =====
-- Sends of daemon.py on concrete inputs.
use sockpost.Common.{◌≡◌, refl, codes, text_eq, text_instance, nat_eq}
use sockpost.Common.Dict.{get}
use sockpost.Common.Result.{ok}
use sockpost.Python.Value.{field_of}
use sockpost.Protocol.Channel.{validate_channel}
use sockpost.Store.Tables.{init_schema}
use sockpost.Daemon.Loop.{start, run_events}
use sockpost.Common.{text_lt}
use sockpost.Common.Dict.{put, remove}
use sockpost.Python.Space.{strip}
use sockpost.Python.Value.{to_text}
use sockpost.Store.Messages.{
  insert_message, reset_pending, pending_batch, mark_delivered, expire_orphans, get_message,
}
use sockpost.Store.Channels.{set_channel_state, reset_all_channels}
use sockpost.Daemon.Scheduler.{arm, push}
use sockpost.Daemon.State.{key_eq, reply, write_all}
use sockpost.Daemon.Delivery.{schedule_delivery, route, pace}
use sockpost.Daemon.Timers.{restore_wakeups, sweep_orphans, schedule_orphan_sweep}
use sockpost.Daemon.Requests.{utf8_size, handle_send}
use sockpost.Daemon.Sessions.{handle_connect}
use sockpost.Daemon.Loop.{fresh}
use sockpost.Common.{suc, ◌≤◌, arith}
use sockpost.Store.Tables.{max_rowid}
use sockpost.Daemon.State.{key_instance}
use sockpost.Daemon.Requests.{Mail, checked_send}
use sockpost.Daemon.Routing.{IsStored, IsRouted, handle_send-IsRouted, handle_send-lost}
use sockpost.Tests.Daemon.{
  at, deaf, sends, after_delivery, after_delivery-IsValid, after_delivery-IsSound,
}

abbrev mail : Mail
mail = record { sender = codes "planner"; recipient = codes "worker"; body = codes "go" }

sends_checked : checked_send after_delivery.settings sends ≡ ok mail
unfolding after_delivery run_events start fresh init_schema reset_all_channels restore_wakeups
    schedule_orphan_sweep sweep_orphans expire_orphans arm push get put remove text_eq text_lt
    field_of validate_channel strip to_text handle_connect write_all reset_pending set_channel_state
    schedule_delivery reply handle_send utf8_size insert_message route pace pending_batch
    mark_delivered key_eq get_message
sends_checked = refl

room_left : suc after_delivery.db.last_id ≤ max_rowid
unfolding after_delivery run_events start fresh init_schema reset_all_channels restore_wakeups
    schedule_orphan_sweep sweep_orphans expire_orphans arm push get put remove text_eq text_lt
    field_of validate_channel strip to_text handle_connect write_all reset_pending set_channel_state
    schedule_delivery reply handle_send utf8_size insert_message route pace pending_batch
    mark_delivered key_eq get_message
room_left = omega arith

handle_send-IsRouted_example :
    IsStored (at 3) mail after_delivery.db (handle_send (at 3) 2 sends after_delivery).db
    × IsRouted
        (at 3)
        (suc after_delivery.db.last_id)
        (codes "planner")
        (codes "worker")
        after_delivery
        (handle_send (at 3) 2 sends after_delivery)
handle_send-IsRouted_example =
    handle_send-IsRouted (at 3) 2 mail sends after_delivery after_delivery-IsValid room_left refl
      sends_checked after_delivery-IsSound refl

handle_send-lost_example :
    IsStored deaf mail after_delivery.db (handle_send deaf 2 sends after_delivery).db
    × ((handle_send deaf 2 sends after_delivery).pacers ≡ after_delivery.pacers)
    × ((handle_send deaf 2 sends after_delivery).scheduler ≡ after_delivery.scheduler)
handle_send-lost_example =
    handle_send-lost deaf 2 mail sends after_delivery after_delivery-IsValid room_left refl
      sends_checked refl
