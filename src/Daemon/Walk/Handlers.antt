-- ===== src/Daemon/Walk/Handlers.antt =====
-- Deliveries, timers and sweeps keep what obeys the laws.
use sockpost.Common.{
  ℕ, ◌≡◌, refl, Bool, true, false, List, [], ◌∷◌, if◌then◌else◌, Bool-cases, Option-cases, inl, inr,
  Text, text_instance,
}
use sockpost.Common.Int.{ℤ, pos}
use sockpost.Common.Dict.{get}
use sockpost.Store.Tables.{Db, Message, Wakeup}
use sockpost.Store.Messages.{mark_delivered, mark_failure_reported, message_status}
use sockpost.Daemon.Scheduler.{Scheduler, Round, waits, drops, calls, is_generation}
use sockpost.Daemon.State.{
  Daemon, Moment, Payload, unreachable, delivery_timeout, Pacer, Key, Callback, ack_watchdog, retry,
  fire_wakeup, sweep, is_member, discard, reply, write_all,
}
use sockpost.Daemon.Delivery.{
  receivers_of, schedule_delivery, arm_ack_watchdog, arm_redelivery, run_retry, route, handed_out,
  offer, eligible, deliver_one, settled, pace, report, is_unreported, fire_ack_watchdog,
  first_taking,
}
use sockpost.Daemon.Timers.{
  start_wakeup, stop_wakeup, run_wakeup, sweep_orphans, schedule_orphan_sweep, call, tick,
  after_round, start_all,
}
use sockpost.Store.Operations.{apply, delivers, reports, expires}
use sockpost.Daemon.Walk.{Laws, Holds, Guards, less_called}

module _ {P : List ℕ → Scheduler Key Callback → Db → Type 0} (law : Laws P) where
  pub reply-Holds :
      (w : Moment) (conn : ℕ) (payload : Payload) (d : Daemon)
      → Holds P d
      → Holds P (reply w conn payload d)
  unfolding reply
  reply-Holds w conn payload d g = elim (Bool-cases (w.takes conn)) [
    | inl e ↦ rw e g
    | inr e ↦ rw e g
  ]

  pub write_all-Holds :
      (w : Moment) (conns : List ℕ) (payload : Payload) (d : Daemon)
      → Holds P d
      → Holds P (write_all w conns payload d)
  unfolding write_all
  write_all-Holds w [] payload d g = g
  write_all-Holds w (conn ∷ conns) payload d g =
      write_all-Holds w conns payload _ (reply-Holds w conn payload d g)

  pub arm_ack_watchdog-Holds :
      (w : Moment) (id : ℕ) (sender recipient : Text) (d : Daemon)
      → Holds P d
      → Holds P (arm_ack_watchdog w id sender recipient d)
  unfolding arm_ack_watchdog
  arm_ack_watchdog-Holds w id sender recipient d g =
      law.arms w.time _ (ack_watchdog id sender recipient _) _ _ g

  pub route-Holds :
      (w : Moment) (id : ℕ) (sender recipient : Text) (d : Daemon)
      → Holds P d
      → Holds P (route w id sender recipient d)
  unfolding route schedule_delivery
  route-Holds w id sender recipient d g = by_receivers (receivers_of recipient d) refl
    where
      by_receivers :
          (conns : List ℕ)
          → receivers_of recipient d ≡ conns
          → Holds P (route w id sender recipient d)
      by_receivers [] q = rw (route, q) (arm_ack_watchdog-Holds w id sender recipient d g)
      by_receivers (conn ∷ conns) q = rw (route, q) (unfold schedule_delivery in g)

  run_retry-Holds :
      (w : Moment) (id : ℕ) (channel : Text) (d : Daemon)
      → P (discard id d.inflight) d.scheduler d.db
      → Holds P (run_retry w id channel d)
  unfolding run_retry schedule_delivery arm_redelivery
  run_retry-Holds w id channel d g = elim (Bool-cases (is_member id d.inflight)) [
    | inl e ↦ rw e (law.arms w.time _ (retry id channel) _ _ g)
    | inr e ↦ rw e (law.lacks id d.inflight d.scheduler e g)
  ]

  handed_out-Holds :
      (w : Moment) (channel : Text) (m : Message) (conn : ℕ) (d : Daemon)
      → Holds P d
      → Holds P (handed_out w channel m conn d)
  unfolding handed_out arm_redelivery arm_ack_watchdog apply
  handed_out-Holds w channel m conn d g =
      let stored : P d.inflight d.scheduler
          (if w.refuses then d.db else mark_delivered w.now m.id d.db) =
        elim (Bool-cases w.refuses) [
          | inl e ↦ rw e g
          | inr e ↦ rw e (law.stores (delivers w.now m.id) d.db g)
        ] in
      law.hands w.time _ m.id channel _ _
        (law.arms w.time _ (ack_watchdog m.id m.sender channel _) _ _ stored)

  pub offer-Holds :
      (w : Moment) (channel : Text) (ms : List Message) (d : Daemon)
      → Holds P d
      → Holds P (offer w channel ms d).1
  unfolding offer
  offer-Holds w channel [] d g = g
  offer-Holds w channel (m ∷ ms) d g =
      elim (Option-cases (first_taking w (receivers_of channel d))) [
        | inl q ↦ rw (offer, q) g
        | inr (conn, q) ↦ rw (offer, q) (handed_out-Holds w channel m conn d g)
      ]

  pub settled-Holds :
      (channel : Text) (pacer : Pacer) (r : (Bool × Bool) × Daemon)
      → Holds P r.1
      → Holds P (settled channel pacer r)
  unfolding settled
  settled-Holds channel pacer ((true, more), d) g = g
  settled-Holds channel pacer ((false, more), d) g = g

  pub pace-Holds :
      (w : Moment) (channel : Text) (d : Daemon) → Holds P d → Holds P (pace w channel d)
  unfolding pace deliver_one
  pace-Holds w channel d g = elim (Option-cases (get channel d.pacers)) [
    | inl q ↦ rw (pace, q) g
    | inr (pacer, q) ↦
        rw (pace, q)
          (elim (Bool-cases pacer.awake) [
            | inl a ↦ rw a (
                settled-Holds channel pacer (deliver_one w channel d)
                  (offer-Holds w channel (eligible w channel d) d g))
            | inr a ↦ rw a (elim (Bool-cases pacer.signal) [ inl b ↦ rw b g | inr b ↦ rw b g ])
          ])
  ]

  pub report-Holds :
      (w : Moment) (id : ℕ) (sender recipient : Text) (waited : ℤ) (d : Daemon)
      → Holds P d
      → Holds P (report w id sender recipient waited d)
  unfolding report
  report-Holds w id sender recipient waited d g = by_receivers (receivers_of recipient d) refl
    where
      by_receivers :
          (conns : List ℕ)
          → receivers_of recipient d ≡ conns
          → Holds P (report w id sender recipient waited d)
      by_receivers [] q =
          rw (report, q) (write_all-Holds w (receivers_of sender d) (unreachable id recipient) d g)
      by_receivers (conn ∷ conns) q =
          rw (report, q)
            (write_all-Holds w (receivers_of sender d) (delivery_timeout id recipient waited) d g)

  pub fire_ack_watchdog-Holds :
      (w : Moment) (id : ℕ) (sender recipient : Text) (waited : ℤ) (d : Daemon)
      → Holds P d
      → Holds P (fire_ack_watchdog w id sender recipient waited d)
  unfolding fire_ack_watchdog apply
  fire_ack_watchdog-Holds w id sender recipient waited d g =
      elim (Bool-cases (is_unreported (message_status (pos id) d.db))) [
        | inl e ↦ rw e (
            report-Holds w id sender recipient waited
              (record d { db = mark_failure_reported w.now id d.db })
              (law.stores (reports w.now id) d.db g))
        | inr e ↦ rw e g
      ]

  pub start_wakeup-Holds :
      (w : Moment) (channel : Text) (seconds : ℕ) (d : Daemon)
      → Holds P d
      → Holds P (start_wakeup w channel seconds d)
  unfolding start_wakeup
  start_wakeup-Holds w channel seconds d g = law.arms w.time _ (fire_wakeup channel seconds _) _ _ g

  pub stop_wakeup-Holds :
      (channel : Text) (d : Daemon) → Holds P d → Holds P (stop_wakeup channel d)
  unfolding stop_wakeup
  stop_wakeup-Holds channel d g = law.stops channel d.inflight d.scheduler g

  run_wakeup-Holds :
      (w : Moment) (channel : Text) (seconds generation : ℕ) (d : Daemon)
      → Holds P d
      → Holds P (run_wakeup w channel seconds generation d)
  unfolding run_wakeup
  run_wakeup-Holds w channel seconds generation d g =
      elim (Bool-cases (is_generation generation (get channel d.wakeup_generation))) [
        | inl e ↦ rw e (
            law.arms w.time _ (fire_wakeup channel seconds generation) _ _
              (write_all-Holds w _ _ d g))
        | inr e ↦ rw e g
      ]

  pub start_all-Holds :
      (w : Moment) (rows : List Wakeup) (d : Daemon) → Holds P d → Holds P (start_all w rows d)
  unfolding start_all
  start_all-Holds w [] d g = g
  start_all-Holds w (row ∷ rows) d g =
      start_all-Holds w rows _ (start_wakeup-Holds w row.channel row.seconds d g)

  pub sweep_orphans-Holds : (w : Moment) (d : Daemon) → Holds P d → Holds P (sweep_orphans w d)
  unfolding sweep_orphans apply
  sweep_orphans-Holds w d g = elim (Bool-cases w.refuses) [
    | inl e ↦ rw e g
    | inr e ↦ rw e (law.stores (expires w.now w.orphan_cutoff) d.db g)
  ]

  pub schedule_orphan_sweep-Holds :
      (w : Moment) (d : Daemon) → Holds P d → Holds P (schedule_orphan_sweep w d)
  unfolding schedule_orphan_sweep
  schedule_orphan_sweep-Holds w d g = law.arms w.time _ sweep _ _ g

  call-Holds :
      (w : Moment) (c : Callback) (d : Daemon)
      → P (less_called c d.inflight) d.scheduler d.db
      → Holds P (call w c d)
  unfolding call
  call-Holds w (ack_watchdog id sender recipient waited) d g =
      fire_ack_watchdog-Holds w id sender recipient waited d g
  call-Holds w (retry id channel) d g = run_retry-Holds w id channel d g
  call-Holds w (fire_wakeup channel seconds generation) d g =
      run_wakeup-Holds w channel seconds generation d g
  call-Holds w sweep d g = sweep_orphans-Holds w _ (schedule_orphan_sweep-Holds w d g)

  after_round-Holds :
      (w : Moment) (d : Daemon) (r : Round Key Callback)
      → Holds P d
      → Guards P d.inflight d.db r
      → Holds P (after_round w d r)
  unfolding after_round
  after_round-Holds w d waits g h = g
  after_round-Holds w d (drops s) g h = h
  after_round-Holds w d (calls c s) g h = call-Holds w c (record d { scheduler = s }) h

  pub tick-Holds : (w : Moment) (d : Daemon) → Holds P d → Holds P (tick w d)
  unfolding tick
  tick-Holds w d g = after_round-Holds w d _ g (law.turns w.time d.inflight d.scheduler d.db g)
