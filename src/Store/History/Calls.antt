-- ===== src/Store/History/Calls.antt =====
-- Every call of store.py extends the archive.
use sockpost.Common.{
  ℕ, suc, ◌≡◌, refl, Bool, true, ◌&&◌, List, [], ◌∷◌, Option, none, some, arith, leb, ltb, ◌==◌,
  Text, any, Bool-cases, find?, inl, inr, subst,
}
use sockpost.Common.Int.{ℤ, pos}
use sockpost.Store.Tables.{acked, expired, is_pending, Message, Db, max_rowid, fits}
use sockpost.Store.Messages.{
  insert_message, mark_delivered, mark_failure_reported, reset_pending, ack_message, expire_orphans,
  is_ackable, is_pending_for, is_orphan, get_message, delivered, reported, undelivered, resolved,
}
use sockpost.Store.Channels.{set_channel_state, reset_all_channels}
use sockpost.Store.Wakeups.{save_wakeup, delete_wakeup}
use sockpost.Store.Operations.{
  Operation, inserts, delivers, reports, resets, acks, expires, sets_channel, resets_channels,
  saves_wakeup, deletes_wakeup, apply, run,
}
use sockpost.Store.Validity.{IsValid, apply-IsValid}
use sockpost.Store.History.{
  Succeeds, Extends, Extends-append, Extends-refl, Extends-trans, Extends-update_where,
}
use sockpost.Store.History.Single.{update_where-ackable}

orphan_pending :
    (cutoff : Text) (db : Db) (m : Message)
    → is_orphan cutoff db m ≡ true
    → is_pending m.state ≡ true
unfolding is_orphan
orphan_pending cutoff db m h = ground arith

ackable_pending :
    (i : ℤ) (r : Text) (m : Message) → is_ackable i r m ≡ true → is_pending m.state ≡ true
unfolding is_ackable
ackable_pending i r m h = ground arith

-- A row that passes a guard on its being pending may change its state.
resolve-Succeeds :
    (m n : Message)
    → is_pending m.state ≡ true
    → n.id ≡ m.id
    → n.recipient ≡ m.recipient
    → n.sender ≡ m.sender
    → n.body ≡ m.body
    → n.created_at ≡ m.created_at
    → Succeeds m n
resolve-Succeeds m n h a b c d e = record {
  id = a;
  recipient = b;
  sender = c;
  body = d;
  created_at = e;
  settled = λ k. cc;
}

unsettled-Succeeds :
    (m : Message) (d r : Option Text)
    → Succeeds m (record m { delivered_at = d; failure_reported_at = r })
unsettled-Succeeds m d r = record {
  id = refl;
  recipient = refl;
  sender = refl;
  body = refl;
  created_at = refl;
  settled = λ h. (refl, refl);
}

insert_message-Extends :
    (now recipient sender body : Text) (db : Db)
    → Extends db.messages (apply (inserts now recipient sender body) db).messages
unfolding apply insert_message
insert_message-Extends now recipient sender body db =
    elim (Bool-cases (leb (suc db.last_id) max_rowid)) [
      | inl e ↦ rw e (Extends-append db.messages _)
      | inr e ↦ rw e (Extends-refl db.messages)
    ]

messages-set_channel_state :
    (now channel : Text) (connected : Bool) (db : Db)
    → (set_channel_state now channel connected db).messages ≡ db.messages
unfolding set_channel_state
messages-set_channel_state now channel connected db = ground arith

messages-save_wakeup :
    (channel interval : Text) (seconds : ℕ) (db : Db)
    → (save_wakeup channel interval seconds db).messages ≡ db.messages
unfolding save_wakeup
messages-save_wakeup channel interval seconds db = ground arith

ack_message-Extends :
    (now : Text) (message_id : ℤ) (recipient : Text) (db : Db)
    → IsValid db
    → Extends db.messages (apply (acks now message_id recipient) db).messages
unfolding apply ack_message
ack_message-Extends now message_id recipient db v = elim (Bool-cases (fits message_id)) [
  | inl f ↦ rw f (elim (Bool-cases (any (is_ackable message_id recipient) db.messages)) [
    | inl e ↦
        rw (e, update_where-ackable message_id recipient (resolved acked now) 0 _ _ v.ids e)
          (Extends-update_where (is_ackable message_id recipient) (resolved acked now) db.messages
            λ m h.
              resolve-Succeeds m _ (ackable_pending message_id recipient m h) refl refl refl refl
                refl)
    | inr e ↦ rw e (Extends-refl db.messages)
  ])
  | inr f ↦ rw f (Extends-refl db.messages)
]

set_channel_state-Extends :
    (now channel : Text) (connected : Bool) (db : Db)
    → Extends db.messages (apply (sets_channel now channel connected) db).messages
unfolding apply
set_channel_state-Extends now channel connected db =
    rw (messages-set_channel_state now channel connected db) (Extends-refl db.messages)

save_wakeup-Extends :
    (channel interval : Text) (seconds : ℕ) (db : Db)
    → Extends db.messages (apply (saves_wakeup channel interval seconds) db).messages
unfolding apply
save_wakeup-Extends channel interval seconds db =
    rw (messages-save_wakeup channel interval seconds db) (Extends-refl db.messages)

-- No call of store.py deletes a row, changes what a row says or takes a resolution back.
pub apply-Extends :
    (o : Operation) (db : Db) → IsValid db → Extends db.messages (apply o db).messages
unfolding apply mark_delivered mark_failure_reported reset_pending expire_orphans reset_all_channels
    delete_wakeup
apply-Extends (inserts now recipient sender body) db v =
    insert_message-Extends now recipient sender body db
apply-Extends (delivers now message_id) db v =
    Extends-update_where (λ m. m.id == message_id) (delivered now) db.messages
      (λ m h. unsettled-Succeeds m _ _)
apply-Extends (reports now message_id) db v =
    Extends-update_where (λ m. m.id == message_id) (reported now) db.messages
      (λ m h. unsettled-Succeeds m _ _)
apply-Extends (resets recipient) db v =
    Extends-update_where (is_pending_for recipient) undelivered db.messages
      (λ m h. unsettled-Succeeds m _ _)
apply-Extends (acks now message_id recipient) db v =
    ack_message-Extends now message_id recipient db v
apply-Extends (expires now cutoff) db v =
    Extends-update_where (is_orphan cutoff db) (resolved expired now) db.messages
      (λ m h. resolve-Succeeds m _ (orphan_pending cutoff db m h) refl refl refl refl refl)
apply-Extends (sets_channel now channel connected) db v =
    set_channel_state-Extends now channel connected db
apply-Extends (resets_channels now) db v = Extends-refl db.messages
apply-Extends (saves_wakeup channel interval seconds) db v =
    save_wakeup-Extends channel interval seconds db
apply-Extends (deletes_wakeup channel) db v = Extends-refl db.messages

run-Extends :
    (os : List Operation) (db : Db) → IsValid db → Extends db.messages (run os db).messages
unfolding run
run-Extends [] db v = Extends-refl db.messages
run-Extends (o ∷ os) db v =
    Extends-trans db.messages (apply o db).messages _ (apply-Extends o db v)
      (run-Extends os (apply o db) (apply-IsValid o db v))

find-Extends :
    (n : ℕ) (m : Message) (ms ns : List Message)
    → Extends ms ns
    → find? (λ (m : Message). m.id == n) ms ≡ some m
    → (m' : Message) × (find? (λ (m : Message). m.id == n) ns ≡ some m') × Succeeds m m'
find-Extends n m [] ns e h = cc
find-Extends n m (x ∷ ms) [] e h = absurd e
find-Extends n m (x ∷ ms) (y ∷ ns) e h = elim (Bool-cases (x.id == n)) [
  | inl here ↦
      let same : x ≡ m = ground arith in
      (y, rw (e.0.id, here), subst (λ (o : Message). Succeeds o y) same e.0)
  | inr there ↦ rw (e.0.id, there) (find-Extends n m ms ns e.1 (ground arith))
]

-- A message that can be read by its id can be read after any further calls, with the same sender,
-- recipient, body and time of creation; and once it is acknowledged or expired it stays so.
pub get_message-run :
    (os : List Operation) (db : Db) (n : ℕ) (m : Message)
    → IsValid db
    → get_message (pos n) db ≡ some m
    → (m' : Message) × (get_message (pos n) (run os db) ≡ some m') × Succeeds m m'
unfolding get_message
get_message-run os db n m v h = elim (Bool-cases (ltb 0 n && leb n max_rowid)) [
  | inl inside ↦ rw inside (find-Extends n m db.messages _ (run-Extends os db v) (rw inside at h))
  | inr outside ↦ let absent : none ≡ some m = rw outside at h in cc
]
