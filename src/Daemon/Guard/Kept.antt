-- ===== src/Daemon/Guard/Kept.antt =====
-- Every event keeps the guard of delivery.
use sockpost.Common.{
  ℕ, ◌≡◌, refl, true, false, List, [], Option, some, ◌==◌, arith, All, Bool-cases, inl, inr, subst,
}
use sockpost.Daemon.Scheduler.{Timer, Scheduler, Round, waits, drops, calls, cancel, round, idle}
use sockpost.Daemon.Scheduler.Soundness.{IsSound}
use sockpost.Daemon.Scheduler.OneTimer.{is_pending, pending, round-Outcome, Outcome}
use sockpost.Daemon.Scheduler.Rounds.{idle-IsSound, After, round-IsSound, round-All, find?-All}
use sockpost.Daemon.State.{
  Key, ack_key, redeliver_key, wakeup_key, key_eq, key_instance, Callback, ack_watchdog, retry,
  fire_wakeup, sweep, is_member, discard, without, Moment, Settings,
}
use sockpost.Daemon.Delivery.{is_some}
use sockpost.Daemon.Loop.{Event, start, run_events}
use sockpost.Store.Tables.{Db}
use sockpost.Daemon.Walk.{Laws, Guards, key_of, less_called}
use sockpost.Daemon.Walk.Events.{run_events-start-Holds}
use sockpost.Daemon.Guard.{
  Filed, has_retry, IsGuarded, is_member-discard, is_member-without, arm-IsGuarded, retry-IsGuarded,
  cancel-IsGuarded, shrink-IsGuarded, cancel_all-IsGuarded, cancel_all-IsGuarded,
}

apart_called :
    (c : Callback) (inflight : List ℕ) (n : ℕ)
    → is_member n (less_called c inflight) ≡ true
    → (key_eq (key_of c) (redeliver_key n) ≡ false) × (is_member n inflight ≡ true)
unfolding key_eq
apart_called (ack_watchdog message_id sender recipient waited) inflight n m = (refl, m)
apart_called (retry message_id channel) inflight n m =
    ground (arith, is_member-discard n message_id inflight)
apart_called (fire_wakeup channel seconds generation) inflight n m = (refl, m)
apart_called sweep inflight n m = (refl, m)

pending-Filed :
    (k : Key) (t : Timer Key Callback) (s : Scheduler Key Callback)
    → All Filed s.heap
    → pending k s ≡ some t
    → Filed t
unfolding pending
pending-Filed k t s a p = find?-All Filed (is_pending k s.generations) t s.heap a p

Outcome-Guards :
    (now : ℕ) (inflight : List ℕ) (s : Scheduler Key Callback) (db : Db) (r : Round Key Callback)
    → IsGuarded inflight s
    → Outcome now s r
    → After IsSound r
    → After (λ (s' : Scheduler Key Callback). All Filed s'.heap) r
    → Guards (λ inflight s db. IsGuarded inflight s) inflight db r
unfolding is_some
Outcome-Guards now inflight s db waits g o v f = tt
Outcome-Guards now inflight s db (drops s') g o v f = record {
  sound = v;
  filed = f;
  guarded = λ n m. rw (o (redeliver_key n)) (g.guarded n m);
}
Outcome-Guards now inflight s db (calls c s') g (t, q, p, due, first, others) v f =
    let key : t.key ≡ key_of c =
      subst (λ b. t.key ≡ key_of b) q (pending-Filed t.key t s g.filed p) in
    record {
      sound = v;
      filed = f;
      guarded = λ n m.
          let a = apart_called c inflight n m in
          rw (others (redeliver_key n), key, a.0) (g.guarded n a.1);
    }

round-Guards :
    (now : ℕ) (inflight : List ℕ) (s : Scheduler Key Callback) (db : Db)
    → IsGuarded inflight s
    → Guards (λ inflight s db. IsGuarded inflight s) inflight db (round now s)
round-Guards now inflight s db g =
    Outcome-Guards now inflight s db (round now s) g (round-Outcome now s g.sound)
      (round-IsSound now s g.sound) (round-All Filed now s g.filed)

-- Acknowledging takes a message out of flight with its timers.
forget-IsGuarded :
    (id : ℕ) (inflight : List ℕ) (s : Scheduler Key Callback)
    → IsGuarded inflight s
    → IsGuarded (discard id inflight) (cancel (redeliver_key id) (cancel (ack_key id) s))
unfolding key_eq
forget-IsGuarded id inflight s g =
    cancel-IsGuarded (redeliver_key id) _ _ (λ m h. ground (arith, is_member-discard m id inflight))
      (cancel-IsGuarded (ack_key id) _ _ (λ m h. refl)
        (shrink-IsGuarded inflight _ s (λ m h. ground (arith, is_member-discard m id inflight)) g))

without-IsGuarded :
    (gone inflight : List ℕ) (s : Scheduler Key Callback)
    → IsGuarded inflight s
    → IsGuarded (without gone inflight) s
without-IsGuarded gone inflight s g =
    shrink-IsGuarded inflight _ s (λ n m. ground (arith, is_member-without n gone inflight)) g

-- Discarding what is not in flight discards nothing.
kept :
    (id n : ℕ) (inflight : List ℕ)
    → is_member id inflight ≡ false
    → is_member n inflight ≡ true
    → is_member n (discard id inflight) ≡ true
kept id n inflight e m = rw (is_member-discard n id inflight) (elim (Bool-cases (n == id)) [
  | inl q ↦ let p : n ≡ id = ground arith in absurd cc
  | inr q ↦ ground arith
])

guard_laws : Laws (λ inflight s db. IsGuarded inflight s)
unfolding key_eq
guard_laws = record {
  stores = λ o db g. g;
  arms = λ now delay c inflight s g. arm-IsGuarded now delay c inflight s g;
  hands = λ now delay id channel inflight s g. retry-IsGuarded now delay id channel inflight s g;
  forgets = λ id inflight s g. forget-IsGuarded id inflight s g;
  stops = λ channel inflight s g. cancel-IsGuarded (wakeup_key channel) inflight s (λ n m. refl) g;
  leaves = λ gone inflight s g.
      cancel_all-IsGuarded gone _ s (λ n m. ground (arith, is_member-without n gone inflight))
        (without-IsGuarded gone inflight s g);
  resets = λ gone inflight s g. without-IsGuarded gone inflight s g;
  lacks = λ id inflight s e g. shrink-IsGuarded _ inflight s (λ n m. kept id n inflight e m) g;
  turns = λ now inflight s db g. round-Guards now inflight s db g;
}

idle-IsGuarded : IsGuarded [] (idle Key Callback)
idle-IsGuarded = record { sound = idle-IsSound; filed = tt; guarded = λ n m. absurd (none_in n m) }
  where
    none_in : (n : ℕ) → is_member n [] ≡ true → ⊥
    none_in n m = absurd cc

-- After a start and any events, every message in flight has a live redelivery timer.
pub run_events-start-has_retry :
    (w : Moment) (settings : Settings) (file : Option Db) (es : List (Moment × Event)) (n : ℕ)
    → is_member n (run_events es (start w settings file)).inflight ≡ true
    → has_retry n (run_events es (start w settings file)).scheduler ≡ true
run_events-start-has_retry w settings file es n m =
    (run_events-start-Holds guard_laws w settings file es idle-IsGuarded).guarded n m

-- The timers of a daemon are sound after any events.
pub run_events-start-IsSound :
    (w : Moment) (settings : Settings) (file : Option Db) (es : List (Moment × Event))
    → IsSound (run_events es (start w settings file)).scheduler
run_events-start-IsSound w settings file es =
    (run_events-start-Holds guard_laws w settings file es idle-IsGuarded).sound
