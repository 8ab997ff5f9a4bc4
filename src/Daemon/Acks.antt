-- ===== src/Daemon/Acks.antt =====
-- What an acknowledgement comes to, for a message that is there.
use sockpost.Common.{
  ℕ, ◌≤◌, ◌++◌, ◌≡◌, ◌≢◌, refl, ap, ◌∙◌, true, false, ◌&&◌, List, [], ◌∷◌, none, some, ltb, leb,
  if◌then◌else◌, ◌==◌, arith, Text, codes, text_eq, text_eq_iff, find?, any, update_where,
  Bool-cases, inl, inr,
}
use sockpost.Common.Int.{pos}
use sockpost.Common.Result.{ok}
use sockpost.Python.Value.{int, Request, field_of, to_int, number}
use sockpost.Protocol.Channel.{validate_channel}
use sockpost.Store.Tables.{
  Db, Message, acked, expired, pending, is_pending, same_id, fits, max_rowid,
}
use sockpost.Store.Messages.{get_message, ack_message, message_status, is_ackable, resolved}
use sockpost.Store.Validity.{IsValid, Ascending}
use sockpost.Daemon.Scheduler.{cancel}
use sockpost.Daemon.Scheduler.Soundness.{IsSound, cancel-IsSound}
use sockpost.Daemon.Scheduler.OneTimer.{pending-cancel}
use sockpost.Daemon.State.{
  Daemon, Moment, ack_updated, ack_refused, Reason, already_acknowledged, message_expired,
  not_the_recipient, Payload, ack_key, redeliver_key, key_eq, key_eq_iff, key_instance, is_member,
  reply,
}
use sockpost.Daemon.Settling.{
  forget, acknowledged, settle, explain, reason_of, reason_for, ack_from, ack_id, handle_ack,
}
use sockpost.Daemon.Delivery.{is_some}
use sockpost.Daemon.Guard.{has_retry, is_member-discard}

-- Ids above the one that is asked for are not it.
any_above :
    (n lo hi : ℕ) (recipient : Text) (ms : List Message)
    → n ≤ lo
    → Ascending lo ms hi
    → any (is_ackable (pos n) recipient) ms ≡ false
unfolding is_ackable same_id
any_above n lo hi recipient [] l a = refl
any_above n lo hi recipient (m ∷ ms) l a = ground (arith, any_above n m.id hi recipient ms)

-- With ascending ids, the test of `ack_message` is that of the row that is found.
any_found :
    (n lo hi : ℕ) (recipient : Text) (ms : List Message) (m : Message)
    → Ascending lo ms hi
    → find? (λ (x : Message). x.id == n) ms ≡ some m
    → any (is_ackable (pos n) recipient) ms ≡ (is_pending m.state && text_eq m.recipient recipient)
unfolding is_ackable same_id
any_found n lo hi recipient [] m a q = absurd cc
any_found n lo hi recipient (x ∷ ms) m a q = elim (Bool-cases (x.id == n)) [
  | inl e ↦
      let same : x ≡ m = ground arith in
      let rest : any (is_ackable (pos n) recipient) ms ≡ false =
        any_above n x.id hi recipient ms (ground arith) a.1 in
      rw (e, rest, same) (ground arith)
  | inr e ↦ rw e (any_found n x.id hi recipient ms m a.1 (rw e at q))
]

find?-resolved :
    (n : ℕ) (now : Text) (ms : List Message) (m : Message)
    → find? (λ (x : Message). x.id == n) ms ≡ some m
    → find?
        (λ (x : Message). x.id == n)
        (update_where (λ (x : Message). same_id (pos n) x.id) (resolved acked now) ms)
      ≡ some (resolved acked now m)
unfolding same_id
find?-resolved n now [] m q = absurd cc
find?-resolved n now (x ∷ ms) m q = elim (Bool-cases (x.id == n)) [
  | inl e ↦
      let same : x ≡ m = ground arith in rw (e, e) (ap (λ y. some (resolved acked now y)) same)
  | inr e ↦ rw (e, e) (find?-resolved n now ms m (rw e at q))
]

found-inside :
    (n : ℕ) (db : Db) (m : Message)
    → get_message (pos n) db ≡ some m
    → ((ltb 0 n && leb n max_rowid) ≡ true)
      × (find? (λ (x : Message). x.id == n) db.messages ≡ some m)
unfolding get_message
found-inside n db m q = elim (Bool-cases (ltb 0 n && leb n max_rowid)) [
  | inl e ↦ (e, rw e at q)
  | inr e ↦ absurd (none_found (rw e at q))
]
  where
    none_found : none ≡ some m → ⊥
    none_found q = absurd cc

pub record IsAcknowledged (now : Text) (n : ℕ) (m : Message) (d : Daemon) : Type 0 where
  pub stored : get_message (pos n) d.db ≡ some (resolved acked now m)
  pub not_inflight : is_member n d.inflight ≡ false
  pub no_retry : has_retry n d.scheduler ≡ false

no_retry_left :
    (n : ℕ) (d : Daemon) → IsSound d.scheduler → has_retry n (forget n d).scheduler ≡ false
unfolding is_some key_eq
no_retry_left n d v =
    rw
      (pending-cancel (redeliver_key n) (redeliver_key n) (cancel (ack_key n) d.scheduler)
        (cancel-IsSound (ack_key n) d.scheduler v))
      (ground (arith, key_eq_iff (redeliver_key n) (redeliver_key n)))

-- What a reply leaves of the state.
reply-IsAcknowledged :
    (w : Moment) (conn : ℕ) (payload : Payload) (now : Text) (n : ℕ) (m : Message) (d : Daemon)
    → IsAcknowledged now n m d
    → IsAcknowledged now n m (reply w conn payload d)
unfolding reply
reply-IsAcknowledged w conn payload now n m d a = elim (Bool-cases (w.takes conn)) [
  | inl e ↦
      rw e (record { stored = a.stored; not_inflight = a.not_inflight; no_retry = a.no_retry })
  | inr e ↦ rw e a
]

-- What the reply says of a message, by its state.
abbrev pub IsReason : Text → Message → Reason → Type 0
IsReason recipient m reason =
    (m.state ≡ acked → reason ≡ already_acknowledged)
    × (m.state ≡ expired → reason ≡ message_expired)
    × (m.state ≡ pending → (reason ≡ not_the_recipient recipient) × (m.recipient ≢ recipient))

reason_for-IsReason :
    (recipient : Text) (m : Message)
    → (is_pending m.state && text_eq m.recipient recipient) ≡ false
    → IsReason recipient m (reason_for recipient m m.state)
unfolding reason_for
reason_for-IsReason recipient m e = (
  λ q. rw q refl,
  λ q. rw q refl,
  λ q.
      let other : text_eq m.recipient recipient ≡ false = rw q at e in
      (rw (q, other) refl, λ same. absurd (ground (arith, other, (text_eq_iff _ _).1 same))),
)

module _ (w : Moment) (conn n : ℕ) (recipient : Text) (m : Message) (d : Daemon) (v : IsValid d.db)
    (found : get_message (pos n) d.db ≡ some m) where
  acked_db : Db
  acked_db = record d.db {
    messages =
        update_where (λ (x : Message). same_id (pos n) x.id) (resolved acked w.now) d.db.messages;
  }

  ack_message-found : ack_message w.now (pos n) recipient d.db ≡ (
      if is_pending m.state && text_eq m.recipient recipient
      then ok (true, acked_db)
      else ok (false, d.db))
  unfolding ack_message fits acked_db
  ack_message-found =
      let (inside, first) = found-inside n d.db m found in
      rw (any_found n 0 d.db.last_id recipient d.db.messages m v.ids first) (ground arith)

  message_status-found : message_status (pos n) d.db ≡ ok (some m)
  unfolding message_status fits same_id
  message_status-found =
      let (inside, first) = found-inside n d.db m found in rw first (ground arith)

  settle-accepted :
      IsSound d.scheduler
      → (is_pending m.state && text_eq m.recipient recipient) ≡ true
      → IsAcknowledged w.now n m (settle w conn (pos n) recipient d)
  unfolding settle acknowledged acked_db get_message
  settle-accepted sound e =
      let (inside, first) = found-inside n d.db m found in
      rw (settle, ack_message-found, e)
        (reply-IsAcknowledged w conn (ack_updated (pos n)) w.now n m
          (forget n (record d { db = acked_db }))
          (record {
            stored = rw inside (find?-resolved n w.now d.db.messages m first);
            not_inflight = ground (arith, is_member-discard n n d.inflight);
            no_retry = no_retry_left n (record d { db = acked_db }) sound;
          }))

  settle-sent :
      w.takes conn ≡ true
      → (is_pending m.state && text_eq m.recipient recipient) ≡ true
      → (settle w conn (pos n) recipient d).sent ≡ d.sent ++ (conn, ack_updated (pos n)) ∷ []
  unfolding settle acknowledged acked_db reply
  settle-sent takes e = rw (settle, ack_message-found, e, takes) refl

  settle-refused :
      (is_pending m.state && text_eq m.recipient recipient) ≡ false
      → settle w conn (pos n) recipient d
        ≡ reply w conn (ack_refused (int (pos n)) (reason_for recipient m m.state)) d
  unfolding settle explain reason_of
  settle-refused e = rw (settle, ack_message-found, e, message_status-found) refl

  module _ (request : Request) (id : to_int (field_of (codes "msg_id") request) ≡ number (pos n))
      (sender : validate_channel (field_of (codes "from") request) ≡ ok recipient) where
    handle_ack-settle : handle_ack w conn request d ≡ settle w conn (pos n) recipient d
    unfolding handle_ack ack_id ack_from
    handle_ack-settle = rw (id, sender) refl

    -- In a well-formed database with sound timers, the recipient of a pending message that
    -- acknowledges it by its id settles it: the stored message is acknowledged at that time, with
    -- its content, it is not in flight, and it has no redelivery timer.
    pub handle_ack-IsAcknowledged :
        IsSound d.scheduler
        → (is_pending m.state && text_eq m.recipient recipient) ≡ true
        → IsAcknowledged w.now n m (handle_ack w conn request d)
    handle_ack-IsAcknowledged sound e = rw handle_ack-settle (settle-accepted sound e)

    -- The reply to such an acknowledgement.
    pub handle_ack-sent :
        w.takes conn ≡ true
        → (is_pending m.state && text_eq m.recipient recipient) ≡ true
        → (handle_ack w conn request d).sent ≡ d.sent ++ (conn, ack_updated (pos n)) ∷ []
    handle_ack-sent takes e = rw handle_ack-settle (settle-sent takes e)

    pub handle_ack-reason :
        (is_pending m.state && text_eq m.recipient recipient) ≡ false
        → handle_ack w conn request d
          ≡ reply w conn (ack_refused (int (pos n)) (reason_for recipient m m.state)) d
    handle_ack-reason e = handle_ack-settle ∙ settle-refused e

    -- In a well-formed database, an acknowledgement of a stored message that is not pending, or by a
    -- channel that is not its recipient, changes nothing but that the reply is written. The reason in it is
    -- that of an acknowledged message for an acknowledged one, that of an expired message for an expired
    -- one, and for a pending one that the channel is not the recipient, which is then true.
    pub handle_ack-refused :
        (is_pending m.state && text_eq m.recipient recipient) ≡ false
        → (reason : Reason) × (handle_ack w conn request d
            ≡ reply w conn (ack_refused (int (pos n)) reason) d)
          × IsReason recipient m reason
    handle_ack-refused e =
        (reason_for recipient m m.state, handle_ack-reason e, reason_for-IsReason recipient m e)
