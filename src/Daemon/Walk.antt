-- ===== src/Daemon/Walk.antt =====
-- The walk over every step of the daemon, once for all invariants: a predicate of the messages in flight,
-- the timers and the database that obeys the laws below is kept by every event.
pub mod Handlers
pub mod Requests
pub mod Events
use sockpost.Common.{ℕ, ◌≡◌, Bool, true, false, List, Text}
use sockpost.Common.Int.{ℤ}
use sockpost.Store.Tables.{Db}
use sockpost.Store.Operations.{Operation, apply}
use sockpost.Daemon.Scheduler.{Scheduler, Round, waits, drops, calls, arm, cancel, round}
use sockpost.Daemon.State.{
  Daemon, Key, ack_key, redeliver_key, wakeup_key, orphan_sweep_key, key_instance, Callback,
  ack_watchdog, retry, fire_wakeup, sweep, is_member, discard, without, include,
}
use sockpost.Daemon.Sessions.{cancel_all}

-- The key under which a callback is armed.
abbrev pub key_of : Callback → Key
key_of (ack_watchdog message_id sender recipient waited) = ack_key message_id
key_of (retry message_id channel) = redeliver_key message_id
key_of (fire_wakeup channel seconds generation) = wakeup_key channel
key_of sweep = orphan_sweep_key

-- What is left in flight when a callback is called.
abbrev pub less_called : Callback → List ℕ → List ℕ
less_called (ack_watchdog message_id sender recipient waited) inflight = inflight
less_called (retry message_id channel) inflight = discard message_id inflight
less_called (fire_wakeup channel seconds generation) inflight = inflight
less_called sweep inflight = inflight

module _ (P : List ℕ → Scheduler Key Callback → Db → Type 0) where
  abbrev pub Guards : List ℕ → Db → Round Key Callback → Type 0
  Guards inflight db waits = Unit
  Guards inflight db (drops s) = P inflight s db
  Guards inflight db (calls c s) = P (less_called c inflight) s db

  -- What the daemon does to the three, and nothing else does.
  pub record Laws : Type 0 where
    pub stores :
        (o : Operation) {inflight : List ℕ} {s : Scheduler Key Callback} (db : Db)
        → P inflight s db
        → P inflight s (apply o db)
    pub arms :
        (now : ℕ) (delay : ℤ) (c : Callback) (inflight : List ℕ) (s : Scheduler Key Callback)
        {db : Db}
        → P inflight s db
        → P inflight (arm now (key_of c) delay c s) db
    pub hands :
        (now : ℕ) (delay : ℤ) (id : ℕ) (channel : Text) (inflight : List ℕ)
        (s : Scheduler Key Callback) {db : Db}
        → P inflight s db
        → P (include id inflight) (arm now (redeliver_key id) delay (retry id channel) s) db
    pub forgets :
        (id : ℕ) (inflight : List ℕ) (s : Scheduler Key Callback) {db : Db}
        → P inflight s db
        → P (discard id inflight) (cancel (redeliver_key id) (cancel (ack_key id) s)) db
    pub stops :
        (channel : Text) (inflight : List ℕ) (s : Scheduler Key Callback) {db : Db}
        → P inflight s db
        → P inflight (cancel (wakeup_key channel) s) db
    pub leaves :
        (gone inflight : List ℕ) (s : Scheduler Key Callback) {db : Db}
        → P inflight s db
        → P (without gone inflight) (cancel_all gone s) db
    pub resets :
        (gone inflight : List ℕ) (s : Scheduler Key Callback) {db : Db}
        → P inflight s db
        → P (without gone inflight) s db
    pub lacks :
        (id : ℕ) (inflight : List ℕ) (s : Scheduler Key Callback) {db : Db}
        → is_member id inflight ≡ false
        → P (discard id inflight) s db
        → P inflight s db
    pub turns :
        (now : ℕ) (inflight : List ℕ) (s : Scheduler Key Callback) (db : Db)
        → P inflight s db
        → Guards inflight db (round now s)

  abbrev pub Holds : Daemon → Type 0
  Holds d = P d.inflight d.scheduler d.db
