-- ===== src/Store/Mailboxes/Refinement.antt =====
-- The tables implement the mailboxes: every call does to the view what the spec says.
use sockpost.Common.{
  ℕ, suc, ◌≡◌, refl, Bool, true, false, not, ◌||◌, List, [], ◌∷◌, ◌++◌, leb, ◌==◌, Text, text_eq,
  filter, arith, any, update_where, Bool-cases, inl, inr, text_eq_iff, ◌∙◌, ap,
}
use sockpost.Common.Int.{ℤ}
use sockpost.Store.Tables.{Message, Channel, Wakeup, Db, max_rowid, same_id, fits, acked}
use sockpost.Store.Messages.{
  is_pending_for, is_known, is_ackable, delivered, reported, undelivered, resolved, insert_message,
  mark_delivered, mark_failure_reported, reset_pending, ack_message, expire_orphans, new_message,
}
use sockpost.Store.Channels.{offline, set_channel_state, reset_all_channels}
use sockpost.Store.Wakeups.{save_wakeup, delete_wakeup}
use sockpost.Store.Operations.{
  Operation, inserts, delivers, reports, resets, acks, expires, sets_channel, resets_channels,
  saves_wakeup, deletes_wakeup, apply, run,
}
use sockpost.Store.Validity.{IsValid, apply-IsValid}
use sockpost.Store.History.Single.{update_where-ackable}
use sockpost.Store.Keyed.{has_key-update_where}
use sockpost.Store.Mailboxes.{Mailboxes, entry, at_recipient, view, step}
use sockpost.Store.Mailboxes.Updates.{
  queue_of, queue_of-unseen, queue_of-append, queue_of-ack, queue_of-no_ack, not_fitting,
  queue_of-expire,
}

-- Two mailboxes with the same queues, known channels and last id are equal.
Mailboxes-path :
    (m n : Mailboxes)
    → ((r : Text) → m.queue r ≡ n.queue r)
    → ((r : Text) → m.known r ≡ n.known r)
    → m.last_id ≡ n.last_id
    → m ≡ n
Mailboxes-path m n q k l = λ i. record { queue = λ r. q r i; known = λ r. k r i; last_id = l i }

ack_message-view :
    (now : Text) (i : ℤ) (r : Text) (db : Db)
    → IsValid db
    → view (apply (acks now i r) db) ≡ step (acks now i r) (view db)
unfolding apply ack_message view step is_known
ack_message-view now i r db v = elim (Bool-cases (fits i)) [
  | inl f ↦ elim (Bool-cases (any (is_ackable i r) db.messages)) [
    | inl e ↦
        rw (f, e, update_where-ackable i r (resolved acked now) 0 _ _ v.ids e)
          (Mailboxes-path _ _ (λ s. queue_of-ack i r now s db.messages) (λ s. refl) refl)
    | inr e ↦ rw (f, e) (Mailboxes-path _ _ (λ s. unchanged s e) (λ s. refl) refl)
  ]
  | inr f ↦ rw f (
      Mailboxes-path _ _
        (λ s. unchanged s (not_fitting i r 0 db.last_id db.messages f v.room v.ids).1) (λ s. refl)
        refl)
]
  where
    unchanged :
        (s : Text)
        → any (is_ackable i r) db.messages ≡ false
        → queue_of s db.messages
          ≡ at_recipient r (filter (λ e. not (same_id i e.id))) (λ t. queue_of t db.messages) s
    unchanged s e = ground (arith, queue_of-no_ack i r db.messages e, text_eq_iff r s)

queue_of-new :
    (recipient sender body now s : Text) (id : ℕ) (ms : List Message)
    → queue_of s (ms ++ new_message id now recipient sender body ∷ [])
      ≡ at_recipient recipient
          (λ q. q ++ record { id = id; sender = sender; body = body; created_at = now } ∷ [])
          (λ t. queue_of t ms)
          s
queue_of-new recipient sender body now s id ms =
    queue_of-append s ms _ ∙ unfold is_pending_for in ground arith

insert_message-view :
    (now recipient sender body : Text) (db : Db)
    → view (apply (inserts now recipient sender body) db)
      ≡ step (inserts now recipient sender body) (view db)
unfolding apply insert_message view step is_known
insert_message-view now recipient sender body db =
    elim (Bool-cases (leb (suc db.last_id) max_rowid)) [
      | inl e ↦ rw e (
          Mailboxes-path _ _
            (λ s. queue_of-new recipient sender body now s (suc db.last_id) db.messages) (λ s. refl)
            refl)
      | inr e ↦ rw e refl
    ]

-- An update that no queue sees leaves the view as it is.
unseen-view :
    (p : Message → Bool) (f : Message → Message) (db : Db)
    → ((r : Text) (m : Message) → is_pending_for r (f m) ≡ is_pending_for r m)
    → ((m : Message) → entry (f m) ≡ entry m)
    → view (record db { messages = update_where p f db.messages }) ≡ view db
unfolding view is_known
unseen-view p f db same keeps =
    Mailboxes-path _ _ (λ r. queue_of-unseen r p f db.messages (same r) keeps) (λ r. refl) refl

pending_same :
    (r : Text) (m n : Message)
    → n.recipient ≡ m.recipient
    → n.state ≡ m.state
    → is_pending_for r n ≡ is_pending_for r m
unfolding is_pending_for
pending_same r m n p q = rw (p, q)

expire_orphans-view :
    (now cutoff : Text) (db : Db)
    → view (apply (expires now cutoff) db) ≡ step (expires now cutoff) (view db)
unfolding apply expire_orphans view step is_known
expire_orphans-view now cutoff db =
    Mailboxes-path _ _ (λ r. queue_of-expire now cutoff r db db.messages) (λ r. refl) refl

reset_all_channels-view : (now : Text) (db : Db) → view (apply (resets_channels now) db) ≡ view db
unfolding apply reset_all_channels view is_known
reset_all_channels-view now db =
    Mailboxes-path _ _ (λ r. refl)
      (λ r.
        has_key-update_where (λ (c : Channel). c.id) (λ c. true) (offline now) r db.channels
          (λ c. refl))
      refl

known-update :
    (here : Channel → Bool) (f : Channel → Channel) (r channel : Text) (cs : List Channel)
    → ((c : Channel) → (f c).id ≡ c.id)
    → any (λ (c : Channel). text_eq c.id channel) cs ≡ true
    → any (λ (c : Channel). text_eq c.id r) (update_where here f cs)
      ≡ (any (λ (c : Channel). text_eq c.id r) cs || text_eq channel r)
known-update here f r channel cs keeps h =
    has_key-update_where (λ (c : Channel). c.id) here f r cs keeps ∙ known_already cs h
  where
    known_already :
        (cs : List Channel)
        → any (λ (c : Channel). text_eq c.id channel) cs ≡ true
        → any (λ (c : Channel). text_eq c.id r) cs
          ≡ (any (λ (c : Channel). text_eq c.id r) cs || text_eq channel r)
    known_already [] h = cc
    known_already (c ∷ cs) h = ground (
      arith,
      known_already cs,
      text_eq_iff c.id channel,
      text_eq_iff channel r,
      text_eq_iff c.id r,
    )

known-append :
    (r : Text) (new : Channel) (cs : List Channel)
    → any (λ (c : Channel). text_eq c.id r) (cs ++ new ∷ [])
      ≡ (any (λ (c : Channel). text_eq c.id r) cs || text_eq new.id r)
known-append r new [] = ground arith
known-append r new (c ∷ cs) = ground (arith, known-append r new cs)

set_channel_state-view :
    (now channel : Text) (connected : Bool) (db : Db)
    → view (apply (sets_channel now channel connected) db)
      ≡ step (sets_channel now channel connected) (view db)
unfolding apply set_channel_state view step is_known
set_channel_state-view now channel connected db =
    elim (Bool-cases (any (λ (c : Channel). text_eq c.id channel) db.channels)) [
      | inl e ↦ rw e (
          Mailboxes-path _ _ (λ r. refl) (λ r. known-update _ _ r channel db.channels (λ c. refl) e)
            refl)
      | inr e ↦ rw e (Mailboxes-path _ _ (λ r. refl) (λ r. known-append r _ db.channels) refl)
    ]

save_wakeup-view :
    (channel interval : Text) (seconds : ℕ) (db : Db)
    → view (apply (saves_wakeup channel interval seconds) db) ≡ view db
unfolding apply save_wakeup view is_known
save_wakeup-view channel interval seconds db =
    elim (Bool-cases (any (λ (w : Wakeup). text_eq w.channel channel) db.wakeups)) [
      | inl e ↦ rw e
      | inr e ↦ rw e
    ]

-- Every call of store.py, successful or not, does to the mailboxes of a valid database what the spec says:
-- only an insertion, an acknowledgement and a sweep change a queue.
pub view-apply : (o : Operation) (db : Db) → IsValid db → view (apply o db) ≡ step o (view db)
unfolding step apply mark_delivered mark_failure_reported reset_pending
view-apply (inserts now recipient sender body) db v =
    insert_message-view now recipient sender body db
view-apply (delivers now message_id) db v =
    unseen-view (λ m. m.id == message_id) (delivered now) db
      (λ r m. pending_same r m (delivered now m) refl refl) (λ m. refl)
view-apply (reports now message_id) db v =
    unseen-view (λ m. m.id == message_id) (reported now) db
      (λ r m. pending_same r m (reported now m) refl refl) (λ m. refl)
view-apply (resets recipient) db v =
    unseen-view (is_pending_for recipient) undelivered db
      (λ r m. pending_same r m (undelivered m) refl refl) (λ m. refl)
view-apply (acks now message_id recipient) db v = ack_message-view now message_id recipient db v
view-apply (expires now cutoff) db v = expire_orphans-view now cutoff db
view-apply (sets_channel now channel connected) db v =
    set_channel_state-view now channel connected db
view-apply (resets_channels now) db v = reset_all_channels-view now db
view-apply (saves_wakeup channel interval seconds) db v =
    save_wakeup-view channel interval seconds db
view-apply (deletes_wakeup channel) db v = unfold delete_wakeup view is_known in refl

-- A history of calls on the mailboxes.
pub steps : List Operation → Mailboxes → Mailboxes
steps [] m = m
steps (o ∷ os) m = steps os (step o m)

-- From a well-formed database, every history of calls does to the mailboxes, the known channels and
-- the last id what the specification does, run on the same calls.
pub view-run : (os : List Operation) (db : Db) → IsValid db → view (run os db) ≡ steps os (view db)
unfolding run steps
view-run [] db v = refl
view-run (o ∷ os) db v =
    view-run os (apply o db) (apply-IsValid o db v) ∙ ap (steps os) (view-apply o db v)
