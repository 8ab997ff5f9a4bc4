-- ===== src/Daemon/Walk/Requests.antt =====
-- The requests that send, forward, acknowledge and set wakeups keep what obeys the laws.
use sockpost.Common.{
  ℕ, ◌≡◌, refl, Bool, true, false, ◌||◌, List, Option, none, some, ltb, ◌==◌, arith, Bool-cases,
  inl, inr, Text, codes, subst, text_instance, nat_eq,
}
use sockpost.Common.Int.{ℤ, pos, negsuc}
use sockpost.Common.Dict.{get}
use sockpost.Common.Result.{Result, ok, err}
use sockpost.Python.Value.{
  Value, Conversion, number, invalid, overflow, to_int, truth_of, Request, field_of,
}
use sockpost.Protocol.Channel.{validate_channel, ChannelError}
use sockpost.Protocol.Interval.{max_interval_seconds}
use sockpost.Store.Tables.{Db, Message, Failure}
use sockpost.Store.Messages.{ack_message, message_status}
use sockpost.Store.Wakeups.{save_wakeup, delete_wakeup}
use sockpost.Daemon.Scheduler.{Scheduler}
use sockpost.Daemon.State.{
  Daemon, Moment, Key, Callback, Payload, Problem, error, queued, forwarded, bad_interval,
  wakeup_ok, wakeup_off, could_not_process, overflow_error, ack_updated, key_instance, reply,
}
use sockpost.Daemon.Timers.{start_wakeup, stop_wakeup}
use sockpost.Daemon.Requests.{
  Mail, Copy, insert, announce, queue, checked_send, checked_forward, handle_send, handle_forward,
}
use sockpost.Daemon.Settling.{
  acknowledged, explain, settle, ack_from, ack_id, handle_ack, set_interval, set_seconds,
  set_wakeup, seconds_of, or_zero_value, handle_wakeup_set, interval_text,
}
use sockpost.Daemon.Walk.Handlers.{reply-Holds, route-Holds, start_wakeup-Holds, stop_wakeup-Holds}
use sockpost.Store.Operations.{apply, inserts, acks, saves_wakeup, deletes_wakeup}
use sockpost.Daemon.Walk.{Laws, Holds}

insert-apply :
    (w : Moment) (mail : Mail) (db db' : Db) (id : ℕ)
    → insert w mail db ≡ ok (id, db')
    → apply (inserts w.now mail.recipient mail.sender mail.body) db ≡ db'
unfolding apply insert
insert-apply w mail db db' id q = ground arith

ack_message-apply :
    (now : Text) (id : ℤ) (recipient : Text) (db db' : Db) (updated : Bool)
    → ack_message now id recipient db ≡ ok (updated, db')
    → apply (acks now id recipient) db ≡ db'
unfolding apply
ack_message-apply now id recipient db db' updated q = rw q refl

module _ {P : List ℕ → Scheduler Key Callback → Db → Type 0} (law : Laws P) where
  announce-Holds :
      (w : Moment) (conn : ℕ) (payload : Payload) (id : ℕ) (mail : Mail) (d : Daemon)
      → Holds P d
      → Holds P (announce w conn payload id mail d)
  unfolding announce
  announce-Holds w conn payload id mail d g = elim (Bool-cases (w.takes conn)) [
    | inl e ↦ rw e (
        route-Holds law w id mail.sender mail.recipient (reply w conn payload d)
          (reply-Holds law w conn payload d g))
    | inr e ↦ rw e (reply-Holds law w conn payload d g)
  ]

  queue-Holds :
      (w : Moment) (conn : ℕ) (payload : ℕ → Payload) (mail : Mail) (d : Daemon)
      → Holds P d
      → Holds P (queue w conn payload mail d)
  unfolding queue
  queue-Holds w conn payload mail d g = by_insert (insert w mail d.db) refl
    where
      by_insert :
          (r : Result Problem (ℕ × Db))
          → insert w mail d.db ≡ r
          → Holds P (queue w conn payload mail d)
      by_insert (err problem) q = rw (queue, q) (reply-Holds law w conn (error problem) d g)
      by_insert (ok (id, db)) q =
          rw (queue, q)
            (announce-Holds w conn (payload id) id mail (record d { db = db })
              (subst (P d.inflight d.scheduler) (insert-apply w mail d.db db id q)
                (law.stores _ d.db g)))

  pub handle_send-Holds :
      (w : Moment) (conn : ℕ) (request : Request) (d : Daemon)
      → Holds P d
      → Holds P (handle_send w conn request d)
  unfolding handle_send
  handle_send-Holds w conn request d g = by_check (checked_send d.settings request) refl
    where
      by_check :
          (r : Result Problem Mail)
          → checked_send d.settings request ≡ r
          → Holds P (handle_send w conn request d)
      by_check (err problem) q = rw (handle_send, q) (reply-Holds law w conn (error problem) d g)
      by_check (ok mail) q = rw (handle_send, q) (queue-Holds w conn queued mail d g)

  pub handle_forward-Holds :
      (w : Moment) (conn : ℕ) (request : Request) (d : Daemon)
      → Holds P d
      → Holds P (handle_forward w conn request d)
  unfolding handle_forward
  handle_forward-Holds w conn request d g = by_check (checked_forward d.settings request d.db) refl
    where
      by_check :
          (r : Result Problem Copy)
          → checked_forward d.settings request d.db ≡ r
          → Holds P (handle_forward w conn request d)
      by_check (err problem) q = rw (handle_forward, q) (reply-Holds law w conn (error problem) d g)
      by_check (ok copy) q =
          rw (handle_forward, q)
            (queue-Holds w conn (λ id. forwarded id copy.source_id copy.mail.recipient copy.hops)
              copy.mail d g)

  acknowledged-Holds : (id : ℤ) (d : Daemon) → Holds P d → Holds P (acknowledged id d)
  unfolding acknowledged
  acknowledged-Holds (pos n) d g = law.forgets n d.inflight d.scheduler g
  acknowledged-Holds (negsuc n) d g = g

  explain-Holds :
      (w : Moment) (conn : ℕ) (id : ℤ) (recipient : Text) (r : Result Failure (Option Message))
      (d : Daemon)
      → Holds P d
      → Holds P (explain w conn id recipient r d)
  unfolding explain
  explain-Holds w conn id recipient (err e) d g = reply-Holds law w conn _ d g
  explain-Holds w conn id recipient (ok status) d g = reply-Holds law w conn _ d g

  settle-Holds :
      (w : Moment) (conn : ℕ) (id : ℤ) (recipient : Text) (d : Daemon)
      → Holds P d
      → Holds P (settle w conn id recipient d)
  unfolding settle
  settle-Holds w conn id recipient d g = by_ack (ack_message w.now id recipient d.db) refl
    where
      by_ack :
          (r : Result Failure (Bool × Db))
          → ack_message w.now id recipient d.db ≡ r
          → Holds P (settle w conn id recipient d)
      by_ack (err e) q =
          rw (settle, q) (reply-Holds law w conn (error (could_not_process overflow_error)) d g)
      by_ack (ok (true, db)) q =
          rw (settle, q)
            (reply-Holds law w conn (ack_updated id) (acknowledged id (record d { db = db })) (
              acknowledged-Holds id (record d { db = db })
                (subst (P d.inflight d.scheduler)
                  (ack_message-apply w.now id recipient d.db db true q) (law.stores _ d.db g))))
      by_ack (ok (false, db)) q =
          rw (settle, q) (explain-Holds w conn id recipient (message_status id d.db) d g)

  pub handle_ack-Holds :
      (w : Moment) (conn : ℕ) (request : Request) (d : Daemon)
      → Holds P d
      → Holds P (handle_ack w conn request d)
  unfolding handle_ack
  handle_ack-Holds w conn request d g = by_id (to_int (field_of (codes "msg_id") request))
    where
      by_sender : (id : ℤ) (r : Result ChannelError Text) → Holds P (ack_from w conn id r d)
      by_sender id (err e) = unfold ack_from in reply-Holds law w conn _ d g
      by_sender id (ok recipient) = unfold ack_from in settle-Holds w conn id recipient d g

      by_id : (c : Conversion) → Holds P (ack_id w conn request c d)
      by_id invalid = unfold ack_id in reply-Holds law w conn _ d g
      by_id overflow = unfold ack_id in reply-Holds law w conn _ d g
      by_id (number id) = unfold ack_id in by_sender id _

  set_interval-Holds :
      (w : Moment) (conn : ℕ) (channel interval : Text) (seconds : ℕ) (d : Daemon)
      → Holds P d
      → Holds P (set_interval w conn channel interval seconds d)
  unfolding set_interval apply
  set_interval-Holds w conn channel interval seconds d g =
      let saved = record d { db = save_wakeup channel interval seconds d.db } in
      reply-Holds law w conn (wakeup_ok channel interval seconds)
        (start_wakeup w channel seconds saved)
        (start_wakeup-Holds law w channel seconds saved
          (law.stores (saves_wakeup channel interval seconds) d.db g))

  set_seconds-Holds :
      (w : Moment) (conn : ℕ) (channel : Text) (value : Value) (seconds : Option ℤ) (d : Daemon)
      → Holds P d
      → Holds P (set_seconds w conn channel value seconds d)
  unfolding set_seconds
  set_seconds-Holds w conn channel value none d g = reply-Holds law w conn _ d g
  set_seconds-Holds w conn channel value (some (negsuc n)) d g = reply-Holds law w conn _ d g
  set_seconds-Holds w conn channel value (some (pos n)) d g =
      elim (Bool-cases (n == 0 || ltb max_interval_seconds n)) [
        | inl e ↦ rw e (reply-Holds law w conn (error bad_interval) d g)
        | inr e ↦ rw e (set_interval-Holds w conn channel (interval_text value n) n d g)
      ]

  set_wakeup-Holds :
      (w : Moment) (conn : ℕ) (request : Request) (r : Result ChannelError Text) (d : Daemon)
      → Holds P d
      → Holds P (set_wakeup w conn request r d)
  unfolding set_wakeup apply
  set_wakeup-Holds w conn request (err e) d g = reply-Holds law w conn _ d g
  set_wakeup-Holds w conn request (ok channel) d g =
      elim (Bool-cases (truth_of (field_of (codes "off") request))) [
        | inl e ↦
            let deleted = record d { db = (delete_wakeup channel d.db).1 } in
            rw e (
              reply-Holds law w conn (wakeup_off channel) (stop_wakeup channel deleted) (
                stop_wakeup-Holds law channel deleted (law.stores (deletes_wakeup channel) d.db g)))
        | inr e ↦ rw e (
            set_seconds-Holds w conn channel (field_of (codes "interval") request)
              (seconds_of (to_int (or_zero_value (get (codes "seconds") request)))) d g)
      ]

  pub handle_wakeup_set-Holds :
      (w : Moment) (conn : ℕ) (request : Request) (d : Daemon)
      → Holds P d
      → Holds P (handle_wakeup_set w conn request d)
  unfolding handle_wakeup_set
  handle_wakeup_set-Holds w conn request d g =
      set_wakeup-Holds w conn request (validate_channel (field_of (codes "channel") request)) d g
