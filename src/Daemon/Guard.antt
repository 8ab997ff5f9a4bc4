-- ===== src/Daemon/Guard.antt =====
-- The guard of delivery: every message in flight has its redelivery timer. The lemmas follow what a handler
-- does to the timers and to the set of messages in flight.
pub mod Kept
use sockpost.Common.{
  ℕ, ◌≡◌, refl, Bool, true, false, not, ◌&&◌, ◌||◌, Text, List, [], ◌∷◌, Option, some, ◌==◌, arith,
  All, Bool-cases, inl, inr, subst,
}
use sockpost.Common.Int.{ℤ}
use sockpost.Daemon.Scheduler.{
  Timer, Scheduler, Round, waits, drops, calls, arm, armed, cancel, round, idle,
}
use sockpost.Daemon.Scheduler.Heap.{All-push}
use sockpost.Daemon.Scheduler.Soundness.{IsSound, arm-IsSound, cancel-IsSound}
use sockpost.Daemon.Scheduler.OneTimer.{
  is_pending, pending, pending-arm, pending-cancel, round-Outcome, Outcome,
}
use sockpost.Daemon.Scheduler.Rounds.{idle-IsSound, After, round-IsSound, round-All, find?-All}
use sockpost.Daemon.State.{
  Key, ack_key, redeliver_key, wakeup_key, key_eq, key_instance, Callback, ack_watchdog, retry,
  fire_wakeup, sweep, is_member, discard, without, include, Moment, Settings,
}
use sockpost.Daemon.Delivery.{is_some}
use sockpost.Daemon.Sessions.{cancel_all}
use sockpost.Daemon.Loop.{Event, start, run_events}
use sockpost.Store.Tables.{Db}
use sockpost.Daemon.Walk.{Laws, Guards, key_of, less_called}
use sockpost.Daemon.Walk.Events.{run_events-start-Holds}

abbrev pub Filed : Timer Key Callback → Type 0
Filed t = t.key ≡ key_of t.callback

-- Whether a message has a redelivery timer.
abbrev pub has_retry : ℕ → Scheduler Key Callback → Bool
has_retry n s = is_some (pending (redeliver_key n) s)

pub record IsGuarded (inflight : List ℕ) (s : Scheduler Key Callback) : Type 0 where
  pub sound : IsSound s
  pub filed : All Filed s.heap
  pub guarded : (n : ℕ) → is_member n inflight ≡ true → has_retry n s ≡ true

pub is_member-discard :
    (m n : ℕ) (ids : List ℕ) → is_member m (discard n ids) ≡ (is_member m ids && not (m == n))
is_member-discard m n [] = refl
is_member-discard m n (i ∷ ids) = ground (arith, is_member-discard m n ids)

pub is_member-without :
    (m : ℕ) (gone ids : List ℕ)
    → is_member m (without gone ids) ≡ (is_member m ids && not (is_member m gone))
is_member-without m gone [] = refl
is_member-without m gone (i ∷ ids) = elim (Bool-cases (i == m)) [
  | inl e ↦ let q : i ≡ m = ground arith in rw q (ground (arith, is_member-without m gone ids))
  | inr e ↦ ground (arith, is_member-without m gone ids)
]

pub is_member-include :
    (m n : ℕ) (ids : List ℕ) → is_member m (include n ids) ≡ (is_member m ids || m == n)
is_member-include m n ids = elim (Bool-cases (is_member n ids)) [
  | inl e ↦ elim (Bool-cases (m == n)) [
    | inl f ↦ let q : m ≡ n = ground arith in rw q (ground arith)
    | inr f ↦ ground arith
  ]
  | inr e ↦ ground arith
]

arm-Filed :
    (now : ℕ) (delay : ℤ) (c : Callback) (s : Scheduler Key Callback)
    → All Filed s.heap
    → All Filed (arm now (key_of c) delay c s).heap
unfolding arm
arm-Filed now delay c s a = All-push Filed (armed now (key_of c) delay c s) s.heap refl a

-- Arming a callback gives its key a timer, and takes none away.
has_retry-arm :
    (now : ℕ) (delay : ℤ) (c : Callback) (n : ℕ) (s : Scheduler Key Callback)
    → IsSound s
    → has_retry n (arm now (key_of c) delay c s)
      ≡ (key_eq (key_of c) (redeliver_key n) || has_retry n s)
unfolding is_some
has_retry-arm now delay c n s v =
    rw (pending-arm now (key_of c) (redeliver_key n) delay c s v) (ground arith)

pub arm-IsGuarded :
    (now : ℕ) (delay : ℤ) (c : Callback) (inflight : List ℕ) (s : Scheduler Key Callback)
    → IsGuarded inflight s
    → IsGuarded inflight (arm now (key_of c) delay c s)
arm-IsGuarded now delay c inflight s g = record {
  sound = arm-IsSound now (key_of c) delay c s g.sound;
  filed = arm-Filed now delay c s g.filed;
  guarded = λ n m. rw (has_retry-arm now delay c n s g.sound) (ground (arith, g.guarded n m));
}

-- A message comes in flight together with its timer.
pub retry-IsGuarded :
    (now : ℕ) (delay : ℤ) (id : ℕ) (channel : Text) (inflight : List ℕ) (s : Scheduler Key Callback)
    → IsGuarded inflight s
    → IsGuarded (include id inflight) (arm now (redeliver_key id) delay (retry id channel) s)
unfolding key_eq
retry-IsGuarded now delay id channel inflight s g = record {
  sound = arm-IsSound now (redeliver_key id) delay (retry id channel) s g.sound;
  filed = arm-Filed now delay (retry id channel) s g.filed;
  guarded = λ n m.
      rw (has_retry-arm now delay (retry id channel) n s g.sound)
        (ground (arith, g.guarded n, is_member-include n id inflight));
}

heap-cancel : (k : Key) (s : Scheduler Key Callback) → (cancel k s).heap ≡ s.heap
unfolding cancel
heap-cancel k s = refl

-- Cancelling a key is safe where it guards nothing in flight.
pub cancel-IsGuarded :
    (k : Key) (inflight : List ℕ) (s : Scheduler Key Callback)
    → ((n : ℕ) → is_member n inflight ≡ true → key_eq k (redeliver_key n) ≡ false)
    → IsGuarded inflight s
    → IsGuarded inflight (cancel k s)
unfolding is_some
cancel-IsGuarded k inflight s apart g = record {
  sound = cancel-IsSound k s g.sound;
  filed = rw (heap-cancel k s) g.filed;
  guarded = λ n m. rw (pending-cancel k (redeliver_key n) s g.sound, apart n m) (g.guarded n m);
}

-- Fewer messages in flight need no more timers.
pub shrink-IsGuarded :
    (inflight fewer : List ℕ) (s : Scheduler Key Callback)
    → ((n : ℕ) → is_member n fewer ≡ true → is_member n inflight ≡ true)
    → IsGuarded inflight s
    → IsGuarded fewer s
shrink-IsGuarded inflight fewer s f g = record {
  sound = g.sound;
  filed = g.filed;
  guarded = λ n m. g.guarded n (f n m);
}

pub cancel_all-IsGuarded :
    (ids inflight : List ℕ) (s : Scheduler Key Callback)
    → ((n : ℕ) → is_member n inflight ≡ true → is_member n ids ≡ false)
    → IsGuarded inflight s
    → IsGuarded inflight (cancel_all ids s)
unfolding cancel_all key_eq
cancel_all-IsGuarded [] inflight s apart g = g
cancel_all-IsGuarded (id ∷ ids) inflight s apart g =
    cancel_all-IsGuarded ids inflight _ (λ n m. ground (arith, apart n m))
      (cancel-IsGuarded (redeliver_key id) inflight s (λ n m. ground (arith, apart n m)) g)
