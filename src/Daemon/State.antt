-- ===== src/Daemon/State.antt =====
-- daemon.py: the state that the event loop owns, what it writes to peers, and its timers' keys and
-- callbacks. A connection is a number.
use sockpost.Common.{
  ℕ, ◌≡◌, ◌↔◌, Bool, true, false, not, List, [], ◌∷◌, ◌++◌, Option, none, some, arith, ◌==◌,
  if◌then◌else◌, Text, text_eq, text_eq_iff, nat_eq, filter, any, Eq,
}
use sockpost.Common.Int.{ℤ}
use sockpost.Common.Dict.{Dict}
use sockpost.Python.Value.{Value}
use sockpost.Protocol.Channel.{ChannelError}
use sockpost.Store.Tables.{Db}
use sockpost.Daemon.Scheduler.{Scheduler}

-- The settings that the handlers read.
pub record Settings : Type 0 where
  pub redeliver_gap : ℤ
  pub drain_batch : ℤ
  pub ack_timeout_online : ℤ
  pub ack_timeout_offline : ℤ
  pub max_body_bytes : ℤ
  pub max_forward_hops : ℤ
  pub orphan_sweep_interval : ℤ

-- The exceptions that `_on_client` turns into an error reply.
pub data Exception : Type 0 where
  overflow_error unicode_encode_error : Exception

-- What an error reply says.
pub data Problem : Type 0 where
  bad_channel : ChannelError → Problem
  body_too_large : (size : ℕ) → Problem
  write_failed not_a_number bad_interval unknown_op : Problem
  no_such_message still_queued unreadable_hops : (source_id : ℤ) → Problem
  too_many_hops : (source_id : ℤ) → (hops : ℕ) → Problem
  could_not_process : Exception → Problem

-- Why an acknowledgement changed nothing.
pub data Reason : Type 0 where
  invalid_id no_message already_acknowledged message_expired not_acknowledged : Reason
  not_the_recipient : (channel : Text) → Reason
  bad_sender : ChannelError → Reason

-- The objects that the daemon writes to a connection.
pub data Payload : Type 0 where
  error : Problem → Payload
  connected evicted : (id : Text) → Payload
  queued : (msg_id : ℕ) → Payload
  forwarded : (msg_id : ℕ) → (src_id : ℕ) → (to : Text) → (hops : ℕ) → Payload
  ack_updated : (msg_id : ℤ) → Payload
  ack_refused : (msg_id : Value) → Reason → Payload
  wakeup_off : (channel : Text) → Payload
  wakeup_ok : (channel interval : Text) → (seconds : ℕ) → Payload
  message : (msg_id : ℕ) → (sender text created_at : Text) → Payload
  delivery_timeout : (msg_id : ℕ) → (target : Text) → (waited : ℤ) → Payload
  unreachable : (msg_id : ℕ) → (target : Text) → Payload
  wakeup : (ts : Text) → Payload
  pong : Payload

-- ("ack", id), ("redeliver", id), ("wakeup", channel), ("orphan_sweep",)
pub data Key : Type 0 where
  ack_key redeliver_key : ℕ → Key
  wakeup_key : Text → Key
  orphan_sweep_key : Key

unfoldable pub key_eq : Key → Key → Bool
key_eq (ack_key m) (ack_key n) = m == n
key_eq (redeliver_key m) (redeliver_key n) = m == n
key_eq (wakeup_key s) (wakeup_key t) = text_eq s t
key_eq orphan_sweep_key orphan_sweep_key = true
key_eq _ _ = false

pub key_eq_iff : (a b : Key) → (key_eq a b ≡ true) ↔ (a ≡ b)
unfolding key_eq
key_eq_iff (ack_key m) (ack_key n) = ground arith
key_eq_iff (ack_key m) (redeliver_key n) = ground arith
key_eq_iff (ack_key m) (wakeup_key n) = ground arith
key_eq_iff (ack_key m) orphan_sweep_key = ground arith
key_eq_iff (redeliver_key m) (ack_key n) = ground arith
key_eq_iff (redeliver_key m) (redeliver_key n) = ground arith
key_eq_iff (redeliver_key m) (wakeup_key n) = ground arith
key_eq_iff (redeliver_key m) orphan_sweep_key = ground arith
key_eq_iff (wakeup_key m) (ack_key n) = ground arith
key_eq_iff (wakeup_key m) (redeliver_key n) = ground arith
key_eq_iff (wakeup_key s) (wakeup_key t) = ground (arith, text_eq_iff s t)
key_eq_iff (wakeup_key m) orphan_sweep_key = ground arith
key_eq_iff orphan_sweep_key (ack_key n) = ground arith
key_eq_iff orphan_sweep_key (redeliver_key n) = ground arith
key_eq_iff orphan_sweep_key (wakeup_key n) = ground arith
key_eq_iff orphan_sweep_key orphan_sweep_key = ground arith

instance abbrev pub key_instance : Eq Key
key_instance = record { beq = key_eq; beq_iff = key_eq_iff }

-- The closures that the daemon arms, by the variables they close over.
pub data Callback : Type 0 where
  ack_watchdog : (message_id : ℕ) → (sender recipient : Text) → (waited : ℤ) → Callback
  retry : (message_id : ℕ) → (channel : Text) → Callback
  fire_wakeup : (channel : Text) → (seconds generation : ℕ) → Callback
  sweep : Callback

-- A pacer drains its channel (`awake`), or waits for its signal.
pub record Pacer : Type 0 where
  pub awake : Bool
  pub signal : Bool

-- `serving` is the local variable `channel` of each connection's `_on_client`, and `sent` what was written
-- to connections that took it, in order.
pub record Daemon : Type 0 where
  pub settings : Settings
  pub receivers : Dict Text (List ℕ)
  pub serving : Dict ℕ Text
  pub pacers : Dict Text Pacer
  pub inflight : List ℕ
  pub wakeup_generation : Dict Text ℕ
  pub scheduler : Scheduler Key Callback
  pub db : Db
  pub sent : List (ℕ × Payload)

-- What a step takes from its surroundings: the loop's clock, `now_iso()`, the two cutoffs that `iso_at`
-- gives, which connections take a write, and whether SQLite refuses the write.
pub record Moment : Type 0 where
  pub time : ℕ
  pub now : Text
  pub redelivery_cutoff : Text
  pub orphan_cutoff : Text
  pub takes : ℕ → Bool
  pub refuses : Bool

-- `dict.get(key, [])`
abbrev pub or_empty : Option (List ℕ) → List ℕ
or_empty none = []
or_empty (some ids) = ids

abbrev pub is_member : ℕ → List ℕ → Bool
is_member n = any (λ m. m == n)

-- inflight.discard(id)
abbrev pub discard : ℕ → List ℕ → List ℕ
discard n = filter (λ m. not (m == n))

-- inflight - ids
abbrev pub without : List ℕ → List ℕ → List ℕ
without ids = filter (λ m. not (is_member m ids))

-- inflight.add(id)
abbrev pub include : ℕ → List ℕ → List ℕ
include n ids = if is_member n ids then ids else n ∷ ids

-- A write that ends the step: where the peer is gone, nothing follows either way.
unfoldable pub reply : Moment → ℕ → Payload → Daemon → Daemon
reply w conn payload d =
    if w.takes conn then record d { sent = d.sent ++ (conn, payload) ∷ [] } else d

unfoldable pub write_all : Moment → List ℕ → Payload → Daemon → Daemon
unfolding reply
write_all w [] payload d = d
write_all w (conn ∷ conns) payload d = write_all w conns payload (reply w conn payload d)
