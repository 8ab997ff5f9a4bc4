-- ===== src/Daemon/Walk/Events.antt =====
-- Connects and disconnects keep what obeys the laws, and so does every event.
use sockpost.Common.{
  ℕ, true, false, List, [], ◌∷◌, Option, none, some, Bool-cases, inl, inr, Text, text_instance,
  nat_eq,
}
use sockpost.Common.Dict.{remove}
use sockpost.Common.Result.{Result, ok, err}
use sockpost.Python.Value.{Request}
use sockpost.Protocol.Channel.{ChannelError}
use sockpost.Store.Tables.{Db, init_schema}
use sockpost.Store.Messages.{pending_ids, reset_pending}
use sockpost.Store.Wakeups.{list_wakeups}
use sockpost.Store.Channels.{reset_all_channels}
use sockpost.Daemon.Scheduler.{Scheduler, idle}
use sockpost.Daemon.State.{
  Daemon, Moment, Settings, Key, Callback, connected, evicted, key_instance, is_member, write_all,
}
use sockpost.Daemon.Delivery.{receivers_of, schedule_delivery}
use sockpost.Daemon.Timers.{restore_wakeups, start_all, sweep_orphans}
use sockpost.Daemon.Sessions.{
  take_over, handle_connect, leave, drop_connection, handle_disconnect, close_connection,
}
use sockpost.Daemon.Walk.Handlers.{
  reply-Holds, write_all-Holds, tick-Holds, pace-Holds, start_all-Holds, sweep_orphans-Holds,
  schedule_orphan_sweep-Holds,
}
use sockpost.Daemon.Loop.{
  Event, receives, closes, paces, ticks, dispatch_op, dispatch, step, run_events, start, fresh,
  connect_as, Op, connect, send, forward, ack, wakeup_set, ping, ping_probe, ping_ack, unknown,
}
use sockpost.Daemon.Walk.Requests.{
  handle_send-Holds, handle_forward-Holds, handle_ack-Holds, handle_wakeup_set-Holds,
}
use sockpost.Store.Operations.{apply, resets, resets_channels, sets_channel}
use sockpost.Daemon.Walk.{Laws, Holds}

module _ {P : List ℕ → Scheduler Key Callback → Db → Type 0} (law : Laws P) where
  handle_connect-Holds :
      (w : Moment) (conn : ℕ) (channel : Text) (d : Daemon)
      → Holds P d
      → Holds P (handle_connect w conn channel d)
  unfolding handle_connect schedule_delivery take_over apply
  handle_connect-Holds w conn channel d g =
      let told = write_all w (receivers_of channel d) (evicted channel) d in
      let h : Holds P told = write_all-Holds law w (receivers_of channel d) (evicted channel) d g in
      let taken : Holds P (take_over w conn channel told) =
        law.resets (reset_pending channel told.db).0 told.inflight told.scheduler (
          law.stores (sets_channel w.now channel true) (apply (resets channel) told.db)
            (law.stores (resets channel) told.db h)) in
      let replied =
        reply-Holds law w conn (connected channel) (take_over w conn channel told) taken in
      elim (Bool-cases (w.takes conn)) [ inl e ↦ rw e replied | inr e ↦ rw e replied ]

  leave-Holds : (w : Moment) (channel : Text) (d : Daemon) → Holds P d → Holds P (leave w channel d)
  unfolding leave apply
  leave-Holds w channel d g =
      law.leaves (pending_ids channel d.db) d.inflight d.scheduler
        (law.stores (sets_channel w.now channel false) d.db g)

  drop_connection-Holds :
      (w : Moment) (channel : Text) (others : List ℕ) (d : Daemon)
      → Holds P d
      → Holds P (drop_connection w channel others d)
  unfolding drop_connection
  drop_connection-Holds w channel [] d g = leave-Holds w channel d g
  drop_connection-Holds w channel (other ∷ others) d g = g

  handle_disconnect-Holds :
      (w : Moment) (conn : ℕ) (channel : Option Text) (d : Daemon)
      → Holds P d
      → Holds P (handle_disconnect w conn channel d)
  unfolding handle_disconnect
  handle_disconnect-Holds w conn none d g = g
  handle_disconnect-Holds w conn (some channel) d g =
      elim (Bool-cases (is_member conn (receivers_of channel d))) [
        | inl e ↦ rw e (drop_connection-Holds w channel _ d g)
        | inr e ↦ rw e g
      ]

  connect_as-Holds :
      (w : Moment) (conn : ℕ) (r : Result ChannelError Text) (d : Daemon)
      → Holds P d
      → Holds P (connect_as w conn r d)
  unfolding connect_as
  connect_as-Holds w conn (err e) d g = reply-Holds law w conn _ d g
  connect_as-Holds w conn (ok channel) d g = handle_connect-Holds w conn channel d g

  dispatch_op-Holds :
      (w : Moment) (conn : ℕ) (request : Request) (op : Op) (d : Daemon)
      → Holds P d
      → Holds P (dispatch_op w conn request op d)
  unfolding dispatch_op
  dispatch_op-Holds w conn request connect d g = connect_as-Holds w conn _ d g
  dispatch_op-Holds w conn request send d g = handle_send-Holds law w conn request d g
  dispatch_op-Holds w conn request forward d g = handle_forward-Holds law w conn request d g
  dispatch_op-Holds w conn request ack d g = handle_ack-Holds law w conn request d g
  dispatch_op-Holds w conn request wakeup_set d g = handle_wakeup_set-Holds law w conn request d g
  dispatch_op-Holds w conn request ping d g = reply-Holds law w conn _ d g
  dispatch_op-Holds w conn request ping_probe d g = g
  dispatch_op-Holds w conn request ping_ack d g = g
  dispatch_op-Holds w conn request unknown d g = reply-Holds law w conn _ d g

  pub step-Holds : (w : Moment) (e : Event) (d : Daemon) → Holds P d → Holds P (step w e d)
  unfolding step close_connection dispatch
  step-Holds w (receives conn request) d g = dispatch_op-Holds w conn request _ d g
  step-Holds w (closes conn) d g =
      handle_disconnect-Holds w conn _ (record d { serving = remove conn d.serving }) g
  step-Holds w (paces channel) d g = pace-Holds law w channel d g
  step-Holds w ticks d g = tick-Holds law w d g

  pub run_events-Holds :
      (es : List (Moment × Event)) (d : Daemon) → Holds P d → Holds P (run_events es d)
  unfolding run_events
  run_events-Holds [] d g = g
  run_events-Holds ((w, e) ∷ es) d g = run_events-Holds es _ (step-Holds w e d g)

  start-Holds :
      (w : Moment) (settings : Settings) (file : Option Db)
      → P [] (idle Key Callback) (init_schema file)
      → Holds P (start w settings file)
  unfolding start restore_wakeups fresh apply
  start-Holds w settings file g =
      let new = fresh settings (reset_all_channels w.now (init_schema file)) in
      let restored = start_all w (list_wakeups new.db) new in
      schedule_orphan_sweep-Holds law w (sweep_orphans w restored) (
        sweep_orphans-Holds law w restored (
          start_all-Holds law w (list_wakeups new.db) new
            (law.stores (resets_channels w.now) (init_schema file) g)))

  -- What obeys the laws and holds of a new scheduler and the file's database holds after any events.
  pub run_events-start-Holds :
      (w : Moment) (settings : Settings) (file : Option Db) (es : List (Moment × Event))
      → P [] (idle Key Callback) (init_schema file)
      → Holds P (run_events es (start w settings file))
  run_events-start-Holds w settings file es g =
      run_events-Holds es _ (start-Holds w settings file g)
