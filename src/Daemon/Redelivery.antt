-- ===== src/Daemon/Redelivery.antt =====
-- A redelivery timer that is due offers its message again.
use sockpost.Common.{ℕ, ◌≡◌, refl, subst, true, false, some, arith, Text, text_instance}
use sockpost.Common.Int.{ℤ, add_one}
use sockpost.Common.Dict.{get, get-put_self}
use sockpost.Daemon.Scheduler.{Scheduler, calls, round, armed}
use sockpost.Daemon.Scheduler.Soundness.{IsSound}
use sockpost.Daemon.Scheduler.OneTimer.{pending, pending-arm}
use sockpost.Daemon.Scheduler.Rounds.{After, round-IsSound}
use sockpost.Daemon.State.{
  Daemon, Moment, Key, redeliver_key, key_eq_iff, key_instance, Callback, retry, is_member,
}
use sockpost.Daemon.Delivery.{
  poked, schedule_delivery, arm_redelivery, run_retry, is_signalled, poked-signal,
}
use sockpost.Daemon.Timers.{call, after_round, tick}
use sockpost.Daemon.Guard.{is_member-discard}

-- The message is out of flight, its channel will look for messages, and it has a new timer.
pub record IsOffered (w : Moment) (n : ℕ) (channel : Text) (gap : ℤ) (d : Daemon) : Type 0 where
  pub not_inflight : is_member n d.inflight ≡ false
  pub signalled : is_signalled (get channel d.pacers) ≡ true
  pub before : Scheduler Key Callback
  pub rearmed :
      pending (redeliver_key n) d.scheduler
      ≡ some (armed w.time (redeliver_key n) (add_one gap) (retry n channel) before)

run_retry-IsOffered :
    (w : Moment) (n : ℕ) (channel : Text) (d : Daemon)
    → IsSound d.scheduler
    → is_member n d.inflight ≡ true
    → IsOffered w n channel d.settings.redeliver_gap (run_retry w n channel d)
unfolding run_retry arm_redelivery schedule_delivery
run_retry-IsOffered w n channel d v m = rw m (record {
  not_inflight = ground (arith, is_member-discard n n d.inflight);
  signalled =
      rw (get-put_self channel (poked (get channel d.pacers)) d.pacers)
        (poked-signal (get channel d.pacers));
  before = d.scheduler;
  rearmed =
      rw
        (
          pending-arm w.time (redeliver_key n) (redeliver_key n) (add_one d.settings.redeliver_gap)
              (retry n channel) d.scheduler v,
          (key_eq_iff (redeliver_key n) (redeliver_key n)).1 refl,
        )
        refl;
})

-- When, in a sound scheduler, the redelivery timer of a message in flight is called, the message
-- leaves flight, its channel is woken, and a timer for it is armed again, for after the window.
pub tick-IsOffered :
    (w : Moment) (n : ℕ) (channel : Text) (d : Daemon) (s : Scheduler Key Callback)
    → IsSound d.scheduler
    → round w.time d.scheduler ≡ calls (retry n channel) s
    → is_member n d.inflight ≡ true
    → IsOffered w n channel d.settings.redeliver_gap (tick w d)
unfolding tick after_round call
tick-IsOffered w n channel d s v q m =
    let after : After IsSound (round w.time d.scheduler) = round-IsSound w.time d.scheduler v in
    let sound : IsSound s = subst (After IsSound) q after in
    rw q (run_retry-IsOffered w n channel (record d { scheduler = s }) sound m)
