-- ===== src/Store/Operations.antt =====
-- The calls of store.py that change the database, as data, and a history of them.
use sockpost.Common.{ℕ, Bool, List, [], ◌∷◌, Text}
use sockpost.Common.Int.{ℤ}
use sockpost.Common.Result.{Result, ok, err}
use sockpost.Store.Tables.{Db, Failure}
use sockpost.Store.Messages.{
  insert_message, mark_delivered, mark_failure_reported, reset_pending, ack_message, expire_orphans,
}
use sockpost.Store.Channels.{set_channel_state, reset_all_channels}
use sockpost.Store.Wakeups.{save_wakeup, delete_wakeup}

pub data Operation : Type 0 where
  inserts : (now recipient sender body : Text) → Operation
  delivers reports : (now : Text) → (message_id : ℕ) → Operation
  resets : (recipient : Text) → Operation
  acks : (now : Text) → (message_id : ℤ) → (recipient : Text) → Operation
  expires : (now cutoff : Text) → Operation
  sets_channel : (now channel : Text) → (connected : Bool) → Operation
  resets_channels : (now : Text) → Operation
  saves_wakeup : (channel interval : Text) → (seconds : ℕ) → Operation
  deletes_wakeup : (channel : Text) → Operation

-- A call that fails leaves the database as it was.
abbrev pub after : {A : Type 0} → Db → Result Failure (A × Db) → Db
after db (ok (a, db')) = db'
after db (err e) = db

unfoldable pub apply : Operation → Db → Db
apply (inserts now recipient sender body) db =
    after db (insert_message now recipient sender body db)
apply (delivers now message_id) db = mark_delivered now message_id db
apply (reports now message_id) db = mark_failure_reported now message_id db
apply (resets recipient) db = (reset_pending recipient db).1
apply (acks now message_id recipient) db = after db (ack_message now message_id recipient db)
apply (expires now cutoff) db = (expire_orphans now cutoff db).1
apply (sets_channel now channel connected) db = set_channel_state now channel connected db
apply (resets_channels now) db = reset_all_channels now db
apply (saves_wakeup channel interval seconds) db = save_wakeup channel interval seconds db
apply (deletes_wakeup channel) db = (delete_wakeup channel db).1

unfoldable pub run : List Operation → Db → Db
run [] db = db
run (o ∷ os) db = run os (apply o db)
