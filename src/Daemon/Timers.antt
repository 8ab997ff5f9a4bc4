-- ===== src/Daemon/Timers.antt =====
-- daemon.py: wakeups, the sweep of orphans, and what each timer of the scheduler calls.
use sockpost.Common.{ℕ, ◌+◌, List, [], ◌∷◌, if◌then◌else◌, Text, text_instance}
use sockpost.Common.Int.{pos}
use sockpost.Common.Dict.{get, put}
use sockpost.Store.Tables.{Wakeup}
use sockpost.Store.Messages.{expire_orphans}
use sockpost.Store.Wakeups.{list_wakeups}
use sockpost.Daemon.Scheduler.{Round, waits, drops, calls, cancel, round, or_zero, is_generation}
use sockpost.Daemon.State.{
  Daemon, Moment, wakeup, Key, wakeup_key, orphan_sweep_key, key_instance, Callback, ack_watchdog,
  retry, fire_wakeup, sweep,
}
use sockpost.Daemon.Delivery.{arm_timer, notify, run_retry, fire_ack_watchdog}

abbrev pub next_generation : Text → Daemon → ℕ
next_generation channel d = or_zero (get channel d.wakeup_generation) + 1

unfoldable pub start_wakeup : Moment → Text → ℕ → Daemon → Daemon
start_wakeup w channel seconds d =
    let generation = next_generation channel d in
    arm_timer w (wakeup_key channel) (pos seconds) (fire_wakeup channel seconds generation)
      (record d { wakeup_generation = put channel generation d.wakeup_generation })

unfoldable pub stop_wakeup : Text → Daemon → Daemon
stop_wakeup channel d = record d {
  wakeup_generation = put channel (next_generation channel d) d.wakeup_generation;
  scheduler = cancel (wakeup_key channel) d.scheduler;
}

-- The closures `fire` and `again`, and `_fire_wakeup`, which repeats their test.
unfoldable pub run_wakeup : Moment → Text → ℕ → ℕ → Daemon → Daemon
run_wakeup w channel seconds generation d =
    if is_generation generation (get channel d.wakeup_generation)
    then arm_timer w (wakeup_key channel) (pos seconds) (fire_wakeup channel seconds generation)
        (notify w channel (wakeup w.now) d)
    else d

unfoldable pub start_all : Moment → List Wakeup → Daemon → Daemon
unfolding start_wakeup
start_all w [] d = d
start_all w (row ∷ rows) d = start_all w rows (start_wakeup w row.channel row.seconds d)

unfoldable pub restore_wakeups : Moment → Daemon → Daemon
unfolding start_all
restore_wakeups w d = start_all w (list_wakeups d.db) d

unfoldable pub sweep_orphans : Moment → Daemon → Daemon
sweep_orphans w d =
    if w.refuses then d else record d { db = (expire_orphans w.now w.orphan_cutoff d.db).1 }

unfoldable pub schedule_orphan_sweep : Moment → Daemon → Daemon
schedule_orphan_sweep w d = arm_timer w orphan_sweep_key d.settings.orphan_sweep_interval sweep d

-- What a callback does, the task that it spawns included.
unfoldable pub call : Moment → Callback → Daemon → Daemon
unfolding run_wakeup sweep_orphans schedule_orphan_sweep
call w (ack_watchdog message_id sender recipient waited) d =
    fire_ack_watchdog w message_id sender recipient waited d
call w (retry message_id channel) d = run_retry w message_id channel d
call w (fire_wakeup channel seconds generation) d = run_wakeup w channel seconds generation d
call w sweep d = sweep_orphans w (schedule_orphan_sweep w d)

unfoldable pub after_round : Moment → Daemon → Round Key Callback → Daemon
unfolding call
after_round w d waits = d
after_round w d (drops scheduler) = record d { scheduler = scheduler }
after_round w d (calls callback scheduler) = call w callback (record d { scheduler = scheduler })

-- A round of `Scheduler._run`.
unfoldable pub tick : Moment → Daemon → Daemon
unfolding after_round
tick w d = after_round w d (round w.time d.scheduler)
