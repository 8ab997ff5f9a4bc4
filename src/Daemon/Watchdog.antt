-- ===== src/Daemon/Watchdog.antt =====
-- The watchdog of acknowledgements: a failure is reported once in a cycle.
use sockpost.Common.{
  ℕ, ◌≡◌, ◌≢◌, refl, ap, sym, true, some, none, ◌++◌, map, filter, append-nil, append_assoc, subst,
  ◌∙◌, false, List, [], ◌∷◌, leb, ◌==◌, arith, Text, find?, update_where, Bool-cases, inl, inr,
}
use sockpost.Common.Int.{ℤ, pos}
use sockpost.Common.Result.{ok}
use sockpost.Store.Tables.{Db, Message, pending, fits, same_id, max_rowid}
use sockpost.Store.Messages.{message_status, mark_failure_reported, reported}
use sockpost.Daemon.State.{Daemon, Moment, Payload, unreachable, delivery_timeout, reply, write_all}
use sockpost.Daemon.Delivery.{receivers_of, report, is_unreported, is_some, fire_ack_watchdog}

found-reported :
    (id : ℕ) (now : Text) (ms : List Message)
    → is_unreported (
        ok (
          find?
            (λ (m : Message). m.id == id)
            (update_where (λ (m : Message). m.id == id) (reported now) ms)))
      ≡ false
unfolding is_unreported is_some
found-reported id now [] = refl
found-reported id now (m ∷ ms) = elim (Bool-cases (m.id == id)) [
  | inl e ↦ rw (e, e) (ground arith)
  | inr e ↦ rw (e, e) (found-reported id now ms)
]

-- A message whose failure was marked is not reported again.
unreported-mark :
    (id : ℕ) (now : Text) (db : Db)
    → is_unreported (message_status (pos id) (mark_failure_reported now id db)) ≡ false
unfolding message_status mark_failure_reported fits same_id is_unreported
unreported-mark id now db = elim (Bool-cases (leb id max_rowid)) [
  | inl e ↦ rw e (found-reported id now db.messages)
  | inr e ↦ rw e refl
]

write_all-db :
    (w : Moment) (conns : List ℕ) (payload : Payload) (d : Daemon)
    → (write_all w conns payload d).db ≡ d.db
unfolding write_all reply
write_all-db w [] payload d = refl
write_all-db w (conn ∷ conns) payload d =
    write_all-db w conns payload (reply w conn payload d) ∙ ground arith

report-db :
    (w : Moment) (id : ℕ) (sender recipient : Text) (waited : ℤ) (d : Daemon)
    → (report w id sender recipient waited d).db ≡ d.db
unfolding report
report-db w id sender recipient waited d = by_receivers (receivers_of recipient d) refl
  where
    by_receivers :
        (conns : List ℕ)
        → receivers_of recipient d ≡ conns
        → (report w id sender recipient waited d).db ≡ d.db
    by_receivers [] q =
        rw (report, q) (write_all-db w (receivers_of sender d) (unreachable id recipient) d)
    by_receivers (conn ∷ conns) q =
        rw (report, q)
          (write_all-db w (receivers_of sender d) (delivery_timeout id recipient waited) d)

-- What firing leaves of the database: no failure of the message to report.
unreported-fire_ack_watchdog :
    (w : Moment) (id : ℕ) (sender recipient : Text) (waited : ℤ) (d : Daemon)
    → is_unreported (message_status (pos id) (fire_ack_watchdog w id sender recipient waited d).db)
      ≡ false
unfolding fire_ack_watchdog
unreported-fire_ack_watchdog w id sender recipient waited d =
    elim (Bool-cases (is_unreported (message_status (pos id) d.db))) [
      | inl e ↦ rw e (
          rw
            (report-db w id sender recipient waited
              (record d { db = mark_failure_reported w.now id d.db }))
            (unreported-mark id w.now d.db))
      | inr e ↦ rw e e
    ]

-- After the watchdog of a message has fired, every further firing for that message, at whatever time and with
-- whatever sender, recipient and timeout, changes nothing and writes nothing in any state whose database is
-- the one that the first firing left, whichever connections that state has.
pub fire_ack_watchdog_idem :
    (w w' : Moment) (id : ℕ) (sender sender' recipient recipient' : Text) (waited waited' : ℤ)
    (d later : Daemon)
    → later.db ≡ (fire_ack_watchdog w id sender recipient waited d).db
    → fire_ack_watchdog w' id sender' recipient' waited' later ≡ later
unfolding fire_ack_watchdog
fire_ack_watchdog_idem w w' id sender sender' recipient recipient' waited waited' d later q =
    let quiet : is_unreported (message_status (pos id) later.db) ≡ false =
      subst (λ db. is_unreported (message_status (pos id) db) ≡ false) (sym q)
        (unreported-fire_ack_watchdog w id sender recipient waited d) in
    rw quiet refl

-- One line to each connection that takes it, in their order.
abbrev pub lines_to : Moment → List ℕ → Payload → List (ℕ × Payload)
lines_to w conns payload = map (λ conn. (conn, payload)) (filter w.takes conns)

write_all-sent :
    (w : Moment) (conns : List ℕ) (payload : Payload) (d : Daemon)
    → (write_all w conns payload d).sent ≡ d.sent ++ lines_to w conns payload
unfolding write_all reply
write_all-sent w [] payload d = sym (append-nil d.sent)
write_all-sent w (conn ∷ conns) payload d = elim (Bool-cases (w.takes conn)) [
  | inl e ↦
      let told : Daemon = record d { sent = d.sent ++ (conn, payload) ∷ [] } in
      let taken : reply w conn payload d ≡ told = rw (reply, e) refl in
      rw e (
        ap (λ d'. (write_all w conns payload d').sent) taken
        ∙ write_all-sent w conns payload told
        ∙ append_assoc d.sent ((conn, payload) ∷ []) (lines_to w conns payload))
  | inr e ↦
      let lost : reply w conn payload d ≡ d = rw (reply, e) refl in
      rw e (ap (λ d'. (write_all w conns payload d').sent) lost ∙ write_all-sent w conns payload d)
]

-- The failure of the message was not reported yet.
abbrev pub IsUnreported : ℕ → Db → Type 0
IsUnreported id db =
    (m : Message) × (message_status (pos id) db ≡ ok (some m))
    × (m.state ≡ pending)
    × (m.failure_reported_at ≡ none)

unreported-IsUnreported :
    (id : ℕ) (db : Db) → IsUnreported id db → is_unreported (message_status (pos id) db) ≡ true
unfolding is_unreported is_some
unreported-IsUnreported id db (m, q, p, u) = rw (q, p, u) refl

-- What the sender is told, by whether somebody listens on the recipient.
abbrev pub IsTold : Moment → ℕ → Text → Text → ℤ → Daemon → Daemon → Type 0
IsTold w id sender recipient waited before after =
    (receivers_of recipient before ≡ []
      → after.sent
        ≡ before.sent ++ lines_to w (receivers_of sender before) (unreachable id recipient))
    × (receivers_of recipient before ≢ []
        → after.sent
          ≡ before.sent
            ++ lines_to w (receivers_of sender before) (delivery_timeout id recipient waited))

report-IsTold :
    (w : Moment) (id : ℕ) (sender recipient : Text) (waited : ℤ) (d : Daemon)
    → IsTold w id sender recipient waited d (report w id sender recipient waited d)
unfolding report
report-IsTold w id sender recipient waited d = by_receivers (receivers_of recipient d) refl
  where
    by_receivers :
        (conns : List ℕ)
        → receivers_of recipient d ≡ conns
        → IsTold w id sender recipient waited d (report w id sender recipient waited d)
    by_receivers [] q = (
      λ h. rw (report, q) (write_all-sent w (receivers_of sender d) (unreachable id recipient) d),
      λ h. absurd (h q),
    )
    by_receivers (conn ∷ conns) q = (
      λ h. absurd (present (sym q ∙ h)),
      λ h.
          rw (report, q)
            (write_all-sent w (receivers_of sender d) (delivery_timeout id recipient waited) d),
    )
      where
        present : conn ∷ conns ≡ [] → ⊥
        present e = cc

-- When the watchdog of a message that is pending and whose failure was not reported fires, it writes one line to each
-- connection of the sender that takes it, and nothing else: that the recipient is unreachable, if nobody listens
-- on it, and else that the delivery has timed out. After that no failure of the message is left to report.
pub fire_ack_watchdog-IsTold :
    (w : Moment) (id : ℕ) (sender recipient : Text) (waited : ℤ) (d : Daemon)
    → IsUnreported id d.db
    → IsTold w id sender recipient waited d (fire_ack_watchdog w id sender recipient waited d)
      × (¬ IsUnreported id (fire_ack_watchdog w id sender recipient waited d).db)
unfolding fire_ack_watchdog
fire_ack_watchdog-IsTold w id sender recipient waited d u = (
  rw (unreported-IsUnreported id d.db u) (
      report-IsTold w id sender recipient waited
        (record d { db = mark_failure_reported w.now id d.db })),
  λ v.
      let again = unreported-IsUnreported id _ v in
      absurd (true-ne (sym again ∙ unreported-fire_ack_watchdog w id sender recipient waited d)),
)
  where
    true-ne : true ≡ false → ⊥
    true-ne e = cc
