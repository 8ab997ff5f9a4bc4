-- ===== src/Store/Messages.antt =====
-- store.py, messages.
use sockpost.Common.{
  ℕ, suc, Bool, true, false, not, ◌&&◌, List, [], ◌∷◌, ◌++◌, map, Option, none, some, leb, ltb,
  ◌==◌, if◌then◌else◌, Text, text_eq, text_lt, take, filter, find?, any, count, update_where,
}
use sockpost.Common.Int.{ℤ, pos, negsuc}
use sockpost.Common.Result.{Result, ok, err}
use sockpost.Store.Tables.{
  State, pending, acked, expired, is_pending, Message, Db, Failure, overflow, sqlite_error, fits,
  same_id, max_rowid,
}

-- What each UPDATE sets.
abbrev pub delivered : Text → Message → Message
delivered now m = record m { delivered_at = some now }

abbrev pub reported : Text → Message → Message
reported now m = record m { failure_reported_at = some now }

abbrev pub undelivered : Message → Message
undelivered m = record m { delivered_at = none; failure_reported_at = none }

abbrev pub resolved : State → Text → Message → Message
resolved state now m = record m { state = state; resolved_at = some now }

-- The row that INSERT writes.
abbrev pub new_message : ℕ → Text → Text → Text → Text → Message
new_message id now recipient sender body = record {
  id = id;
  recipient = recipient;
  sender = sender;
  body = body;
  created_at = now;
  state = pending;
  resolved_at = none;
  delivered_at = none;
  failure_reported_at = none;
}

-- The id of the new row, or the SQLITE_FULL error when the ids have run out.
unfoldable pub insert_message : Text → Text → Text → Text → Db → Result Failure (ℕ × Db)
insert_message now recipient sender body db =
    let id = suc db.last_id in
    if leb id max_rowid
    then ok (
      id,
      record db {
        messages = db.messages ++ new_message id now recipient sender body ∷ [];
        last_id = id;
      },
    )
    else err sqlite_error

-- `recipient=? AND state=0`
unfoldable pub is_pending_for : Text → Message → Bool
is_pending_for recipient m = text_eq m.recipient recipient && is_pending m.state

-- LIMIT: a negative number is no limit.
unfoldable pub limited {ℓ} : {A : Type ℓ} → ℤ → List A → List A
limited (pos n) rows = take n rows
limited (negsuc n) rows = rows

unfoldable pub pending_batch : Text → ℤ → Db → List Message
unfolding is_pending_for limited
pending_batch recipient limit db = limited limit (filter (is_pending_for recipient) db.messages)

unfoldable pub pending_ids : Text → Db → List ℕ
unfolding is_pending_for
pending_ids recipient db = map (λ m. m.id) (filter (is_pending_for recipient) db.messages)

unfoldable pub mark_delivered : Text → ℕ → Db → Db
mark_delivered now message_id db = record db {
  messages = update_where (λ m. m.id == message_id) (delivered now) db.messages;
}

unfoldable pub mark_failure_reported : Text → ℕ → Db → Db
mark_failure_reported now message_id db = record db {
  messages = update_where (λ m. m.id == message_id) (reported now) db.messages;
}

unfoldable pub reset_pending : Text → Db → List ℕ × Db
unfolding pending_ids
reset_pending recipient db = (
  pending_ids recipient db,
  record db { messages = update_where (is_pending_for recipient) undelivered db.messages },
)

-- `id=? AND state=0 AND recipient=?`
unfoldable pub is_ackable : ℤ → Text → Message → Bool
unfolding same_id
is_ackable message_id recipient m =
    same_id message_id m.id && is_pending m.state && text_eq m.recipient recipient

unfoldable pub ack_message : Text → ℤ → Text → Db → Result Failure (Bool × Db)
unfolding is_ackable fits
ack_message now message_id recipient db =
    if fits message_id
    then (if any (is_ackable message_id recipient) db.messages
        then ok (
          true,
          record db {
            messages = update_where (λ m. same_id message_id m.id) (resolved acked now) db.messages;
          },
        )
        else ok (false, db))
    else err overflow

unfoldable pub get_message : ℤ → Db → Option Message
get_message (negsuc n) db = none
get_message (pos n) db =
    if ltb 0 n && leb n max_rowid then find? (λ m. m.id == n) db.messages else none

unfoldable pub message_status : ℤ → Db → Result Failure (Option Message)
unfolding fits same_id
message_status message_id db =
    if fits message_id then ok (find? (λ m. same_id message_id m.id) db.messages) else err overflow

unfoldable pub list_unread : Option Text → Db → List Message
unfolding is_pending_for
list_unread none db = filter (λ m. is_pending m.state) db.messages
list_unread (some recipient) db = filter (is_pending_for recipient) db.messages

unfoldable pub is_known : Text → Db → Bool
is_known recipient db = any (λ c. text_eq c.id recipient) db.channels

-- `state=0 AND created_at < ? AND recipient NOT IN (SELECT id FROM channels)`
unfoldable pub is_orphan : Text → Db → Message → Bool
unfolding is_known
is_orphan cutoff db m =
    is_pending m.state && text_lt m.created_at cutoff && not (is_known m.recipient db)

unfoldable pub expire_orphans : Text → Text → Db → ℕ × Db
unfolding is_orphan
expire_orphans now cutoff db = (
  count (is_orphan cutoff db) db.messages,
  record db { messages = update_where (is_orphan cutoff db) (resolved expired now) db.messages },
)
