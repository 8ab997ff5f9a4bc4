-- ===== src/Store/Validity.antt =====
-- The invariant of the database: ids ascend and fit a rowid, `resolved_at` is set exactly on the rows that
-- have left the pending state, and no channel has two rows.
use sockpost.Common.{
  ℕ, suc, ◌≤◌, ◌<◌, ◌≡◌, refl, Bool, true, false, List, [], ◌∷◌, ◌++◌, Option, none, some, arith,
  leb, Text, All, All-append, update_where, Bool-cases, inl, inr,
}
use sockpost.Common.Int.{ℤ}
use sockpost.Store.Tables.{
  acked, is_pending, Message, Channel, Wakeup, Db, max_rowid, same_id, init_schema,
}
use sockpost.Store.Messages.{
  insert_message, mark_delivered, mark_failure_reported, reset_pending, ack_message, expire_orphans,
  resolved,
}
use sockpost.Store.Channels.{offline, set_channel_state, reset_all_channels}
use sockpost.Store.Wakeups.{save_wakeup, delete_wakeup}
use sockpost.Store.Keyed.{
  Distinct, has_key, Distinct-update_where, Distinct-append, Distinct-filter,
}
use sockpost.Store.Operations.{
  Operation, inserts, delivers, reports, resets, acks, expires, sets_channel, resets_channels,
  saves_wakeup, deletes_wakeup, apply, run,
}

-- The ids ascend from above `lo` to at most `hi`.
abbrev pub Ascending : ℕ → List Message → ℕ → Type 0
Ascending lo [] hi = lo ≤ hi
Ascending lo (m ∷ ms) hi = (lo < m.id) × Ascending m.id ms hi

abbrev is_none : Option Text → Bool
is_none none = true
is_none (some stamp) = false

-- A row is pending exactly if it has no time of resolution.
abbrev pub Resolved : Message → Type 0
Resolved m = is_pending m.state ≡ is_none m.resolved_at

pub record IsValid (db : Db) : Type 0 where
  pub ids : Ascending 0 db.messages db.last_id
  pub room : db.last_id ≤ max_rowid
  pub resolved : All Resolved db.messages
  pub channels : Distinct (λ (c : Channel). c.id) db.channels
  pub wakeups : Distinct (λ (w : Wakeup). w.channel) db.wakeups

-- An update that leaves the ids alone keeps their order.
pub Ascending-update_where :
    (p : Message → Bool) (f : Message → Message) (lo hi : ℕ) (ms : List Message)
    → ((m : Message) → (f m).id ≡ m.id)
    → Ascending lo ms hi
    → Ascending lo (update_where p f ms) hi
Ascending-update_where p f lo hi [] keeps h = h
Ascending-update_where p f lo hi (m ∷ ms) keeps h =
    ground (arith, keeps m, Ascending-update_where p f m.id hi ms keeps h.1)

Ascending-insert :
    (lo hi : ℕ) (ms : List Message) (m : Message)
    → m.id ≡ suc hi
    → Ascending lo ms hi
    → Ascending lo (ms ++ m ∷ []) (suc hi)
Ascending-insert lo hi [] m e h = omega arith
Ascending-insert lo hi (x ∷ ms) m e h = (h.0, Ascending-insert x.id hi ms m e h.1)

All-update_where :
    {P : Message → Type 0} (p : Message → Bool) (f : Message → Message) (ms : List Message)
    → ((m : Message) → P m → P (f m))
    → All P ms
    → All P (update_where p f ms)
All-update_where p f [] keeps h = tt
All-update_where p f (m ∷ ms) keeps h = elim (Bool-cases (p m)) [
  | inl e ↦ rw e (keeps m h.0, All-update_where p f ms keeps h.1)
  | inr e ↦ rw e (h.0, All-update_where p f ms keeps h.1)
]

insert_message-IsValid :
    (now recipient sender body : Text) (db : Db)
    → IsValid db
    → IsValid (apply (inserts now recipient sender body) db)
unfolding apply insert_message
insert_message-IsValid now recipient sender body db v =
    elim (Bool-cases (leb (suc db.last_id) max_rowid)) [
      | inl e ↦ rw e (record {
        ids = Ascending-insert 0 db.last_id db.messages _ refl v.ids;
        room = ground arith;
        resolved = All-append Resolved db.messages _ v.resolved (refl, tt);
        channels = v.channels;
        wakeups = v.wakeups;
      })
      | inr e ↦ rw e v
    ]

-- An update of the messages keeps the invariant, if it leaves each id alone and each row resolved as its
-- state says.
update_messages-IsValid :
    (p : Message → Bool) (f : Message → Message) (db : Db)
    → ((m : Message) → (f m).id ≡ m.id)
    → ((m : Message) → Resolved m → Resolved (f m))
    → IsValid db
    → IsValid (record db { messages = update_where p f db.messages })
update_messages-IsValid p f db same keeps v = record {
  ids = Ascending-update_where p f 0 db.last_id db.messages same v.ids;
  room = v.room;
  resolved = All-update_where p f db.messages keeps v.resolved;
  channels = v.channels;
  wakeups = v.wakeups;
}

ack_message-IsValid :
    (now : Text) (message_id : ℤ) (recipient : Text) (db : Db)
    → IsValid db
    → IsValid (apply (acks now message_id recipient) db)
unfolding apply ack_message
ack_message-IsValid now message_id recipient db v = ground (
  arith,
  update_messages-IsValid (λ m. same_id message_id m.id) (resolved acked now) db (λ m. refl)
      (λ m h. refl) v,
)

set_channel_state-IsValid :
    (now channel : Text) (connected : Bool) (db : Db)
    → IsValid db
    → IsValid (apply (sets_channel now channel connected) db)
unfolding apply set_channel_state
set_channel_state-IsValid now channel connected db v =
    elim (Bool-cases (has_key (λ (c : Channel). c.id) channel db.channels)) [
      | inl e ↦ rw e (record {
        ids = v.ids;
        room = v.room;
        resolved = v.resolved;
        channels =
            Distinct-update_where (λ (c : Channel). c.id) _ _ db.channels (λ c. refl) v.channels;
        wakeups = v.wakeups;
      })
      | inr e ↦ rw e (record {
        ids = v.ids;
        room = v.room;
        resolved = v.resolved;
        channels = Distinct-append (λ (c : Channel). c.id) db.channels _ e v.channels;
        wakeups = v.wakeups;
      })
    ]

save_wakeup-IsValid :
    (channel interval : Text) (seconds : ℕ) (db : Db)
    → IsValid db
    → IsValid (apply (saves_wakeup channel interval seconds) db)
unfolding apply save_wakeup
save_wakeup-IsValid channel interval seconds db v =
    elim (Bool-cases (has_key (λ (w : Wakeup). w.channel) channel db.wakeups)) [
      | inl e ↦ rw e (record {
        ids = v.ids;
        room = v.room;
        resolved = v.resolved;
        channels = v.channels;
        wakeups =
            Distinct-update_where (λ (w : Wakeup). w.channel) _ _ db.wakeups (λ w. refl) v.wakeups;
      })
      | inr e ↦ rw e (record {
        ids = v.ids;
        room = v.room;
        resolved = v.resolved;
        channels = v.channels;
        wakeups = Distinct-append (λ (w : Wakeup). w.channel) db.wakeups _ e v.wakeups;
      })
    ]

-- Every call keeps the invariant, whether it succeeds or fails.
pub apply-IsValid : (o : Operation) (db : Db) → IsValid db → IsValid (apply o db)
unfolding apply mark_delivered mark_failure_reported reset_pending expire_orphans reset_all_channels
    delete_wakeup
apply-IsValid (inserts now recipient sender body) db v =
    insert_message-IsValid now recipient sender body db v
apply-IsValid (delivers now message_id) db v =
    update_messages-IsValid _ _ db (λ m. refl) (λ m h. h) v
apply-IsValid (reports now message_id) db v =
    update_messages-IsValid _ _ db (λ m. refl) (λ m h. h) v
apply-IsValid (resets recipient) db v = update_messages-IsValid _ _ db (λ m. refl) (λ m h. h) v
apply-IsValid (acks now message_id recipient) db v =
    ack_message-IsValid now message_id recipient db v
apply-IsValid (expires now cutoff) db v = update_messages-IsValid _ _ db (λ m. refl) (λ m h. refl) v
apply-IsValid (sets_channel now channel connected) db v =
    set_channel_state-IsValid now channel connected db v
apply-IsValid (resets_channels now) db v = record {
  ids = v.ids;
  room = v.room;
  resolved = v.resolved;
  channels =
      Distinct-update_where (λ (c : Channel). c.id) (λ c. true) (offline now) db.channels
        (λ c. refl) v.channels;
  wakeups = v.wakeups;
}
apply-IsValid (saves_wakeup channel interval seconds) db v =
    save_wakeup-IsValid channel interval seconds db v
apply-IsValid (deletes_wakeup channel) db v = record {
  ids = v.ids;
  room = v.room;
  resolved = v.resolved;
  channels = v.channels;
  wakeups = Distinct-filter (λ (w : Wakeup). w.channel) _ db.wakeups v.wakeups;
}

pub run-IsValid : (os : List Operation) (db : Db) → IsValid db → IsValid (run os db)
unfolding run
run-IsValid [] db v = v
run-IsValid (o ∷ os) db v = run-IsValid os (apply o db) (apply-IsValid o db v)

-- A new database satisfies the invariant after any history of calls.
pub run-init_schema-IsValid : (os : List Operation) → IsValid (run os (init_schema none))
unfolding init_schema
run-init_schema-IsValid os =
    run-IsValid os _
      (record { ids = omega arith; room = omega arith; resolved = tt; channels = tt; wakeups = tt })
