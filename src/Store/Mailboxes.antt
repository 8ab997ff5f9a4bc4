-- ===== src/Store/Mailboxes.antt =====
-- What store.py promises its caller: for each recipient a queue of entries, oldest first. The spec knows
-- nothing of rows, states and delivery marks.
pub mod Updates
pub mod Refinement
use sockpost.Common.{
  ℕ, suc, Bool, true, false, not, ◌&&◌, ◌||◌, List, [], ◌∷◌, ◌++◌, map, leb, if◌then◌else◌, Text,
  text_eq, text_lt, filter,
}
use sockpost.Common.Int.{ℤ}
use sockpost.Store.Tables.{Message, Db, max_rowid, same_id}
use sockpost.Store.Messages.{is_pending_for, is_known}
use sockpost.Store.Operations.{
  Operation, inserts, delivers, reports, resets, acks, expires, sets_channel, resets_channels,
  saves_wakeup, deletes_wakeup,
}

pub record Entry : Type 0 where
  pub id : ℕ
  pub sender : Text
  pub body : Text
  pub created_at : Text

-- The queue of each recipient, the channels that have ever connected, and the last id given out.
pub record Mailboxes : Type 0 where
  pub queue : Text → List Entry
  pub known : Text → Bool
  pub last_id : ℕ

abbrev pub entry : Message → Entry
entry m = record { id = m.id; sender = m.sender; body = m.body; created_at = m.created_at }

-- The mailboxes that a database stands for.
pub view : Db → Mailboxes
view db = record {
  queue = λ r. map entry (filter (is_pending_for r) db.messages);
  known = λ r. is_known r db;
  last_id = db.last_id;
}

-- A change to the queue of one recipient.
abbrev pub at_recipient : Text → (List Entry → List Entry) → (Text → List Entry) → Text → List Entry
at_recipient r f queue s = if text_eq r s then f (queue s) else queue s

pub step : Operation → Mailboxes → Mailboxes
step (inserts now recipient sender body) m =
    let new : Entry = record {
      id = suc m.last_id;
      sender = sender;
      body = body;
      created_at = now;
    } in
    if leb (suc m.last_id) max_rowid
    then record m {
      queue = at_recipient recipient (λ q. q ++ new ∷ []) m.queue;
      last_id = suc m.last_id;
    }
    else m
step (acks now message_id recipient) m = record m {
  queue = at_recipient recipient (filter (λ e. not (same_id message_id e.id))) m.queue;
}
step (expires now cutoff) m = record m {
  queue = λ r.
      if m.known r then m.queue r else filter (λ e. not (text_lt e.created_at cutoff)) (m.queue r);
}
step (sets_channel now channel connected) m = record m {
  known = λ r. m.known r || text_eq channel r;
}
step (delivers now message_id) m = m
step (reports now message_id) m = m
step (resets recipient) m = m
step (resets_channels now) m = m
step (saves_wakeup channel interval seconds) m = m
step (deletes_wakeup channel) m = m
