-- ===== src/Daemon/Routing.antt =====
-- What becomes of a message that is sent or forwarded: it is stored, and offered or watched.
use sockpost.Common.{
  ℕ, suc, ◌≤◌, ◌≡◌, ◌≢◌, ◌+◌, refl, sym, subst, true, false, List, [], ◌∷◌, ◌++◌, some, leb-eq-true,
  ◌==◌, arith, Text, text_instance, find?, inl, inr, ◌⊎◌,
}
use sockpost.Common.Int.{ℤ, pos}
use sockpost.Common.Dict.{get, get-put_self}
use sockpost.Common.Result.{ok}
use sockpost.Python.Value.{Request}
use sockpost.Store.Tables.{Db, Message, max_rowid}
use sockpost.Store.Messages.{get_message, insert_message, new_message}
use sockpost.Store.Validity.{IsValid, Ascending}
use sockpost.Daemon.Scheduler.{Timer, armed, waiting_time}
use sockpost.Daemon.Scheduler.Soundness.{IsSound}
use sockpost.Daemon.Scheduler.OneTimer.{pending, pending-arm}
use sockpost.Daemon.State.{
  Daemon, Moment, Payload, Key, Callback, ack_watchdog, ack_key, key_eq_iff, key_instance, queued,
  reply,
}
use sockpost.Daemon.Delivery.{
  is_signalled, poked-signal, receivers_of, schedule_delivery, poked, arm_ack_watchdog, route,
  watchdog_delay, arm_timer,
}
use sockpost.Daemon.Requests.{Mail, insert, announce, queue, checked_send, handle_send}

-- A recipient that somebody listens on has its pacer signalled. Nobody listens on any other, and the timer
-- that is due after the timeout for an absent recipient calls the watchdog of the message, which has the
-- sender as the one to tell.
abbrev pub IsRouted : Moment → ℕ → Text → Text → Daemon → Daemon → Type 0
IsRouted w id sender recipient before after =
    ((receivers_of recipient before ≢ []) × (is_signalled (get recipient after.pacers) ≡ true))
    ⊎ ((receivers_of recipient before ≡ [])
        × (timer : Timer Key Callback) × (pending (ack_key id) after.scheduler ≡ some timer)
        × (timer.callback ≡ ack_watchdog id sender recipient before.settings.ack_timeout_offline)
        × (timer.deadline ≡ w.time + waiting_time before.settings.ack_timeout_offline))

route-absent :
    (w : Moment) (id : ℕ) (sender recipient : Text) (d : Daemon)
    → receivers_of recipient d ≡ []
    → route w id sender recipient d
      ≡ arm_timer w
          (ack_key id)
          d.settings.ack_timeout_offline
          (ack_watchdog id sender recipient d.settings.ack_timeout_offline)
          d
unfolding route arm_ack_watchdog watchdog_delay
route-absent w id sender recipient d q = rw (route, q, arm_ack_watchdog, q) refl

route-present :
    (w : Moment) (id : ℕ) (sender recipient : Text) (d : Daemon) (conn : ℕ) (conns : List ℕ)
    → receivers_of recipient d ≡ conn ∷ conns
    → route w id sender recipient d ≡ schedule_delivery recipient d
unfolding route
route-present w id sender recipient d conn conns q = rw (route, q) refl

route-IsRouted :
    (w : Moment) (id : ℕ) (sender recipient : Text) (d : Daemon)
    → IsSound d.scheduler
    → IsRouted w id sender recipient d (route w id sender recipient d)
unfolding schedule_delivery
route-IsRouted w id sender recipient d v = by_receivers (receivers_of recipient d) refl
  where
    delay : ℤ
    delay = d.settings.ack_timeout_offline

    by_receivers :
        (conns : List ℕ)
        → receivers_of recipient d ≡ conns
        → IsRouted w id sender recipient d (route w id sender recipient d)
    by_receivers [] q =
        subst (IsRouted w id sender recipient d) (sym (route-absent w id sender recipient d q)) (
          inr (
            q,
            armed w.time (ack_key id) delay (ack_watchdog id sender recipient delay) d.scheduler,
            rw
                (
                  pending-arm w.time (ack_key id) (ack_key id) delay
                      (ack_watchdog id sender recipient delay) d.scheduler v,
                  (key_eq_iff (ack_key id) (ack_key id)).1 refl,
                )
                refl,
            refl,
            refl,
          ))
    by_receivers (conn ∷ conns) q =
        subst (IsRouted w id sender recipient d)
          (sym (route-present w id sender recipient d conn conns q))
          (inl (
            (λ none_there. cc),
            rw (get-put_self recipient (poked (get recipient d.pacers)) d.pacers) (poked-signal _),
          ))

same_db :
    (w : Moment) (id : ℕ) (sender recipient : Text) (d : Daemon)
    → (route w id sender recipient d).db ≡ d.db
unfolding route schedule_delivery arm_ack_watchdog
same_db w id sender recipient d = by_receivers (receivers_of recipient d) refl
  where
    by_receivers :
        (conns : List ℕ)
        → receivers_of recipient d ≡ conns
        → (route w id sender recipient d).db ≡ d.db
    by_receivers [] q = rw (route, q) refl
    by_receivers (conn ∷ conns) q = rw (route, q) refl

same_sent :
    (w : Moment) (id : ℕ) (sender recipient : Text) (d : Daemon)
    → (route w id sender recipient d).sent ≡ d.sent
unfolding route schedule_delivery arm_ack_watchdog
same_sent w id sender recipient d = by_receivers (receivers_of recipient d) refl
  where
    by_receivers :
        (conns : List ℕ)
        → receivers_of recipient d ≡ conns
        → (route w id sender recipient d).sent ≡ d.sent
    by_receivers [] q = rw (route, q) refl
    by_receivers (conn ∷ conns) q = rw (route, q) refl

find?-new :
    (lo hi : ℕ) (ms : List Message) (m : Message)
    → m.id ≡ suc hi
    → Ascending lo ms hi
    → find? (λ (x : Message). x.id == suc hi) (ms ++ m ∷ []) ≡ some m
find?-new lo hi [] m e a = ground arith
find?-new lo hi (x ∷ ms) m e a = ground (arith, below x.id hi ms a.1, find?-new x.id hi ms m e a.1)
  where
    below : (lo hi : ℕ) (ms : List Message) → Ascending lo ms hi → lo ≤ hi
    below lo hi [] a = a
    below lo hi (y ∷ ys) a = omega (arith, below y.id hi ys a.1, a.0)

-- What is stored under the next id.
abbrev pub IsStored : Moment → Mail → Db → Db → Type 0
IsStored w mail before after =
    get_message (pos (suc before.last_id)) after
    ≡ some (new_message (suc before.last_id) w.now mail.recipient mail.sender mail.body)

module _ (w : Moment) (conn : ℕ) (mail : Mail) (payload : ℕ → Payload) (d : Daemon)
    (v : IsValid d.db) (room : suc d.db.last_id ≤ max_rowid) (accepts : w.refuses ≡ false) where
  new : Message
  new = new_message (suc d.db.last_id) w.now mail.recipient mail.sender mail.body

  grown : Db
  grown = record d.db { messages = d.db.messages ++ new ∷ []; last_id = suc d.db.last_id }

  insert-grown : insert w mail d.db ≡ ok (suc d.db.last_id, grown)
  unfolding insert insert_message new grown
  insert-grown = rw (accepts, leb-eq-true (suc d.db.last_id) max_rowid room) refl

  grown-found : IsStored w mail d.db grown
  unfolding get_message new grown
  grown-found =
      rw
        (find?-new 0 d.db.last_id d.db.messages
          (new_message (suc d.db.last_id) w.now mail.recipient mail.sender mail.body) refl v.ids)
        (ground (arith, room))

  queue-announce :
      queue w conn payload mail d
      ≡ announce w conn
          (payload (suc d.db.last_id))
          (suc d.db.last_id)
          mail
          (record d { db = grown })
  unfolding queue
  queue-announce = rw (queue, insert-grown) refl

  pub queue-IsRouted :
      IsSound d.scheduler
      → w.takes conn ≡ true
      → IsStored w mail d.db (queue w conn payload mail d).db
        × IsRouted w (suc d.db.last_id) mail.sender mail.recipient d (queue w conn payload mail d)
  unfolding announce reply new
  queue-IsRouted sound e =
      let replied : Daemon = record d {
        db = grown;
        sent = d.sent ++ (conn, payload (suc d.db.last_id)) ∷ [];
      } in
      rw (queue-announce, e)
        (
          rw (same_db w (suc d.db.last_id) mail.sender mail.recipient replied) grown-found,
          route-IsRouted w (suc d.db.last_id) mail.sender mail.recipient replied sound,
        )

  pub queue-sent :
      w.takes conn ≡ true
      → (queue w conn payload mail d).sent ≡ d.sent ++ (conn, payload (suc d.db.last_id)) ∷ []
  unfolding announce reply
  queue-sent e =
      let replied : Daemon = record d {
        db = grown;
        sent = d.sent ++ (conn, payload (suc d.db.last_id)) ∷ [];
      } in
      rw (queue-announce, e) (same_sent w (suc d.db.last_id) mail.sender mail.recipient replied)

  queue-lost : w.takes conn ≡ false → queue w conn payload mail d ≡ record d { db = grown }
  unfolding announce reply
  queue-lost e = rw (queue-announce, e) refl

  pub queue-silent : w.takes conn ≡ false → (queue w conn payload mail d).sent ≡ d.sent
  queue-silent e = rw (queue-lost e) refl

  module _ (request : Request) (checked : checked_send d.settings request ≡ ok mail) where
    handle_send-queue : handle_send w conn request d ≡ queue w conn queued mail d
    unfolding handle_send
    handle_send-queue = rw (handle_send, checked) refl

-- In a well-formed database with ids left and with sound timers, a send that passes its checks, that
-- SQLite takes and whose caller takes the reply is stored under the next id, pending, with its
-- content. If somebody listens on the recipient, its pacer is signalled; if nobody does, a timer
-- for the watchdog that tells the sender is due after the timeout for an absent recipient.
pub handle_send-IsRouted :
    (w : Moment) (conn : ℕ) (mail : Mail) (request : Request) (d : Daemon)
    → IsValid d.db
    → suc d.db.last_id ≤ max_rowid
    → w.refuses ≡ false
    → checked_send d.settings request ≡ ok mail
    → IsSound d.scheduler
    → w.takes conn ≡ true
    → IsStored w mail d.db (handle_send w conn request d).db
      × IsRouted w (suc d.db.last_id) mail.sender mail.recipient d (handle_send w conn request d)
handle_send-IsRouted w conn mail request d v room accepts checked sound e =
    rw (handle_send-queue w conn mail queued d v room accepts request checked)
      (queue-IsRouted w conn mail queued d v room accepts sound e)

-- In a well-formed database with ids left, a send that passes its checks and that SQLite takes, but
-- whose caller is gone before the reply, is stored all the same; no pacer is signalled and no timer
-- is armed.
pub handle_send-lost :
    (w : Moment) (conn : ℕ) (mail : Mail) (request : Request) (d : Daemon)
    → IsValid d.db
    → suc d.db.last_id ≤ max_rowid
    → w.refuses ≡ false
    → checked_send d.settings request ≡ ok mail
    → w.takes conn ≡ false
    → IsStored w mail d.db (handle_send w conn request d).db
      × ((handle_send w conn request d).pacers ≡ d.pacers)
      × ((handle_send w conn request d).scheduler ≡ d.scheduler)
handle_send-lost w conn mail request d v room accepts checked e =
    rw
      (
        handle_send-queue w conn mail queued d v room accepts request checked,
        queue-lost w conn mail queued d v room accepts e,
      )
      (grown-found w conn mail queued d v room accepts, refl, refl)
