-- ===== src/Daemon/Delivery.antt =====
-- daemon.py: pacers, deliver_one, the watchdog of acknowledgements and the redelivery timer. A step stands
-- for a coroutine from one wait on a peer or a clock to the next, with the calls of the database in it.
use sockpost.Common.{
  ℕ, ◌≡◌, refl, Bool, true, false, not, ◌&&◌, List, [], ◌∷◌, ◌++◌, Option, none, some,
  if◌then◌else◌, Text, text_lt, text_instance, filter,
}
use sockpost.Common.Int.{ℤ, pos, add_one}
use sockpost.Common.Dict.{get, put}
use sockpost.Common.Result.{Result, ok, err}
use sockpost.Store.Tables.{Message, is_pending, Failure}
use sockpost.Store.Messages.{pending_batch, mark_delivered, mark_failure_reported, message_status}
use sockpost.Daemon.Scheduler.{arm}
use sockpost.Daemon.State.{
  Daemon, Moment, Pacer, Payload, message, delivery_timeout, unreachable, Key, ack_key,
  redeliver_key, key_instance, Callback, ack_watchdog, retry, or_empty, is_member, discard, include,
  write_all,
}

-- `self.receivers.get(channel, [])`
abbrev pub receivers_of : Text → Daemon → List ℕ
receivers_of channel d = or_empty (get channel d.receivers)

unfoldable pub poked : Option Pacer → Pacer
poked none = record { awake = true; signal = true }
poked (some pacer) = record pacer { signal = true }

-- A pacer that will look for messages at its next round.
abbrev pub is_signalled : Option Pacer → Bool
is_signalled none = false
is_signalled (some pacer) = pacer.signal

pub poked-signal : (o : Option Pacer) → (poked o).signal ≡ true
unfolding poked
poked-signal none = refl
poked-signal (some pacer) = refl

unfoldable pub schedule_delivery : Text → Daemon → Daemon
unfolding poked
schedule_delivery channel d = record d {
  pacers = put channel (poked (get channel d.pacers)) d.pacers;
}

abbrev pub arm_timer : Moment → Key → ℤ → Callback → Daemon → Daemon
arm_timer w key delay callback d = record d {
  scheduler = arm w.time key delay callback d.scheduler;
}

unfoldable pub watchdog_delay : List ℕ → Daemon → ℤ
watchdog_delay [] d = d.settings.ack_timeout_offline
watchdog_delay (conn ∷ conns) d = d.settings.ack_timeout_online

unfoldable pub arm_ack_watchdog : Moment → ℕ → Text → Text → Daemon → Daemon
unfolding watchdog_delay
arm_ack_watchdog w message_id sender recipient d =
    let delay = watchdog_delay (receivers_of recipient d) d in
    arm_timer w (ack_key message_id) delay (ack_watchdog message_id sender recipient delay) d

unfoldable pub arm_redelivery : Moment → ℕ → Text → Daemon → Daemon
arm_redelivery w message_id channel d =
    arm_timer w (redeliver_key message_id) (add_one d.settings.redeliver_gap)
      (retry message_id channel) d

-- The body of the closure `retry`.
unfoldable pub run_retry : Moment → ℕ → Text → Daemon → Daemon
unfolding schedule_delivery arm_redelivery
run_retry w message_id channel d =
    if not (is_member message_id d.inflight)
    then d
    else arm_redelivery w message_id channel
        (schedule_delivery channel (record d { inflight = discard message_id d.inflight }))

unfoldable pub route : Moment → ℕ → Text → Text → Daemon → Daemon
unfolding schedule_delivery arm_ack_watchdog
route w message_id sender recipient d = elim (receivers_of recipient d) [
  | [] ↦ arm_ack_watchdog w message_id sender recipient d
  | conn ∷ conns ↦ schedule_delivery recipient d
]

-- `delivered_at is not None and delivered_at >= cutoff`
unfoldable pub is_recent : Text → Option Text → Bool
is_recent cutoff none = false
is_recent cutoff (some delivered_at) = not (text_lt delivered_at cutoff)

unfoldable pub is_eligible : Moment → Daemon → Message → Bool
unfolding is_recent
is_eligible w d m =
    not (is_member m.id d.inflight) && not (is_recent w.redelivery_cutoff m.delivered_at)

-- The first connection that takes a write.
unfoldable pub first_taking : Moment → List ℕ → Option ℕ
first_taking w [] = none
first_taking w (conn ∷ conns) = if w.takes conn then some conn else first_taking w conns

-- What follows a write that was taken.
unfoldable pub handed_out : Moment → Text → Message → ℕ → Daemon → Daemon
unfolding arm_ack_watchdog arm_redelivery
handed_out w channel m conn d = arm_redelivery w m.id channel (
    arm_ack_watchdog w m.id m.sender channel (record d {
      sent = d.sent ++ (conn, message m.id m.sender m.body m.created_at) ∷ [];
      inflight = include m.id d.inflight;
      db = if w.refuses then d.db else mark_delivered w.now m.id d.db;
    }))

unfoldable pub is_some : {A : Type 0} → Option A → Bool
is_some none = false
is_some (some a) = true

unfoldable pub eligible : Moment → Text → Daemon → List Message
unfolding is_eligible
eligible w channel d = filter (is_eligible w d) (pending_batch channel d.settings.drain_batch d.db)

is_nonempty : List Message → Bool
is_nonempty [] = false
is_nonempty (m ∷ ms) = true

unfoldable pub offer : Moment → Text → List Message → Daemon → (Bool × Bool) × Daemon
unfolding first_taking handed_out is_nonempty
offer w channel [] d = ((false, false), d)
offer w channel (m ∷ ms) d = elim (first_taking w (receivers_of channel d)) [
  | none ↦ ((false, false), d)
  | some conn ↦ ((true, is_nonempty ms), handed_out w channel m conn d)
]

-- Where nobody is connected, no connection takes the first message.
unfoldable pub deliver_one : Moment → Text → Daemon → (Bool × Bool) × Daemon
unfolding eligible offer
deliver_one w channel d = offer w channel (eligible w channel d) d

abbrev pub with_pacer : Text → Pacer → Daemon → Daemon
with_pacer channel pacer d = record d { pacers = put channel pacer d.pacers }

-- After a delivery the pacer goes on, else it waits.
unfoldable pub settled : Text → Pacer → (Bool × Bool) × Daemon → Daemon
settled channel pacer ((delivered, more), d) =
    if delivered then d else with_pacer channel (record pacer { awake = false }) d

-- A round of `ChannelPacer._run`; the wait of `delivery_gap` lies between two rounds.
unfoldable pub pace : Moment → Text → Daemon → Daemon
unfolding deliver_one settled
pace w channel d = elim (get channel d.pacers) [
  | none ↦ d
  | some pacer ↦
      if pacer.awake
      then settled channel pacer (deliver_one w channel d)
      else if pacer.signal
      then with_pacer channel (record { awake = true; signal = false }) d
      else d
]

-- `_notify`
abbrev pub notify : Moment → Text → Payload → Daemon → Daemon
notify w channel payload d = write_all w (receivers_of channel d) payload d

unfoldable pub report : Moment → ℕ → Text → Text → ℤ → Daemon → Daemon
unfolding write_all
report w message_id sender recipient waited d = elim (receivers_of recipient d) [
  | [] ↦ notify w sender (unreachable message_id recipient) d
  | conn ∷ conns ↦ notify w sender (delivery_timeout message_id recipient waited) d
]

-- Whether the failure is still to be reported.
unfoldable pub is_unreported : Result Failure (Option Message) → Bool
is_unreported (err e) = false
is_unreported (ok none) = false
is_unreported (ok (some m)) = is_pending m.state && not (is_some m.failure_reported_at)

unfoldable pub fire_ack_watchdog : Moment → ℕ → Text → Text → ℤ → Daemon → Daemon
unfolding is_unreported report is_some
fire_ack_watchdog w message_id sender recipient waited d =
    if is_unreported (message_status (pos message_id) d.db)
    then report w message_id sender recipient waited
        (record d { db = mark_failure_reported w.now message_id d.db })
    else d
