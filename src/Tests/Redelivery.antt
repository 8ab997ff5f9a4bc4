-- ===== src/Tests/Redelivery.antt =====
-- The watchdog and the redelivery timer of daemon.py on concrete inputs.
use sockpost.Common.{◌≡◌, refl, true, [], ◌∷◌, List, none, codes, text_eq, text_instance, nat_eq}
use sockpost.Common.Int.{pos}
use sockpost.Common.Dict.{get}
use sockpost.Python.Value.{field_of}
use sockpost.Protocol.Channel.{validate_channel}
use sockpost.Store.Tables.{init_schema}
use sockpost.Daemon.State.{Daemon, Moment, is_member}
use sockpost.Daemon.Loop.{Event, receives, paces, ticks, start, run_events}
use sockpost.Daemon.Guard.Kept.{run_events-start-IsSound}
use sockpost.Common.{text_lt}
use sockpost.Common.Dict.{put, remove}
use sockpost.Python.Space.{strip}
use sockpost.Python.Value.{to_text}
use sockpost.Store.Messages.{
  insert_message, reset_pending, pending_batch, mark_delivered, expire_orphans, get_message,
}
use sockpost.Store.Channels.{set_channel_state, reset_all_channels}
use sockpost.Daemon.Scheduler.{arm, push}
use sockpost.Daemon.State.{key_eq, reply, write_all}
use sockpost.Daemon.Delivery.{schedule_delivery, route, pace}
use sockpost.Daemon.Timers.{restore_wakeups, sweep_orphans, schedule_orphan_sweep}
use sockpost.Daemon.Requests.{utf8_size, handle_send}
use sockpost.Daemon.Sessions.{handle_connect}
use sockpost.Daemon.Loop.{fresh}
use sockpost.Daemon.Scheduler.Soundness.{IsSound}
use sockpost.Daemon.State.{key_instance}
use sockpost.Store.Tables.{fits, same_id}
use sockpost.Store.Messages.{message_status, mark_failure_reported}
use sockpost.Daemon.Scheduler.{round, release, calls}
use sockpost.Daemon.Scheduler.Rounds.{rest_of}
use sockpost.Daemon.State.{retry}
use sockpost.Daemon.Delivery.{fire_ack_watchdog, report}
use sockpost.Daemon.Timers.{tick}
use sockpost.Daemon.Watchdog.{
  fire_ack_watchdog_idem, IsUnreported, IsTold, fire_ack_watchdog-IsTold,
}
use sockpost.Daemon.Redelivery.{IsOffered, tick-IsOffered}
use sockpost.Tests.Daemon.{settings, at, deaf, connects, sends, after_delivery, first_message}

first-IsUnreported : IsUnreported 1 after_delivery.db
unfolding after_delivery run_events start fresh init_schema reset_all_channels restore_wakeups
    schedule_orphan_sweep sweep_orphans expire_orphans arm push get put remove text_eq text_lt
    field_of validate_channel strip to_text handle_connect write_all reset_pending set_channel_state
    schedule_delivery reply handle_send utf8_size insert_message route pace pending_batch
    mark_delivered key_eq message_status fits same_id
first-IsUnreported = (first_message, refl, refl, refl)

fire_ack_watchdog-IsTold_example :
    IsTold
      (at 40)
      1
      (codes "planner")
      (codes "worker")
      (pos 30)
      after_delivery
      (fire_ack_watchdog (at 40) 1 (codes "planner") (codes "worker") (pos 30) after_delivery)
    × (¬ IsUnreported 1
        (fire_ack_watchdog (at 40) 1 (codes "planner") (codes "worker") (pos 30) after_delivery).db)
fire_ack_watchdog-IsTold_example =
    fire_ack_watchdog-IsTold (at 40) 1 (codes "planner") (codes "worker") (pos 30) after_delivery
      first-IsUnreported

reported_once : Daemon
reported_once =
    fire_ack_watchdog (at 40) 1 (codes "planner") (codes "worker") (pos 30) after_delivery

-- Every connection is gone when the watchdog fires again.
fire_ack_watchdog_idem_example :
    fire_ack_watchdog deaf 1
      (codes "planner")
      (codes "worker")
      (pos 30)
      (record reported_once { receivers = [] })
    ≡ record reported_once { receivers = [] }
unfolding reported_once
fire_ack_watchdog_idem_example =
    fire_ack_watchdog_idem (at 40) deaf 1 (codes "planner") (codes "planner") (codes "worker")
      (codes "worker") (pos 30) (pos 30) after_delivery (record reported_once { receivers = [] })
      refl

-- The watchdog has fired, and the redelivery timer is due.
abbrev waiting : List (Moment × Event)
waiting =
    (at 0, receives 1 connects)
    ∷ (at 1, receives 2 sends)
    ∷ (at 2, paces (codes "worker"))
    ∷ (at 40, ticks)
    ∷ []

unanswered : Daemon
unanswered = run_events waiting (start (at 0) settings none)

unanswered-IsSound : IsSound unanswered.scheduler
unfolding unanswered
unanswered-IsSound = run_events-start-IsSound (at 0) settings none waiting

retry_due :
    round 200 unanswered.scheduler
    ≡ calls
        (retry 1 (codes "worker"))
        (rest_of unanswered.scheduler (round 200 unanswered.scheduler))
unfolding unanswered run_events start fresh init_schema reset_all_channels restore_wakeups
    schedule_orphan_sweep sweep_orphans expire_orphans arm push get put remove text_eq text_lt
    field_of validate_channel strip to_text handle_connect write_all reset_pending set_channel_state
    schedule_delivery reply handle_send utf8_size insert_message route pace pending_batch
    mark_delivered key_eq get_message tick round release fire_ack_watchdog mark_failure_reported
    message_status report fits same_id
retry_due = refl

still_inflight : is_member 1 unanswered.inflight ≡ true
unfolding unanswered run_events start fresh init_schema reset_all_channels restore_wakeups
    schedule_orphan_sweep sweep_orphans expire_orphans arm push get put remove text_eq text_lt
    field_of validate_channel strip to_text handle_connect write_all reset_pending set_channel_state
    schedule_delivery reply handle_send utf8_size insert_message route pace pending_batch
    mark_delivered key_eq get_message tick round release fire_ack_watchdog mark_failure_reported
    message_status report fits same_id
still_inflight = refl

tick-IsOffered_example :
    IsOffered
      (at 200)
      1
      (codes "worker")
      unanswered.settings.redeliver_gap
      (tick (at 200) unanswered)
tick-IsOffered_example =
    tick-IsOffered (at 200) 1 (codes "worker") unanswered
      (rest_of unanswered.scheduler (round 200 unanswered.scheduler)) unanswered-IsSound retry_due
      still_inflight
