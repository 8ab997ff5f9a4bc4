-- ===== src/Store/Mailboxes/Updates.antt =====
-- What the updates of the message table do to a recipient's queue.
use sockpost.Common.{
  ℕ, ◌≤◌, ◌≡◌, refl, Bool, false, not, ◌&&◌, List, [], ◌∷◌, ◌++◌, map, if◌then◌else◌, Text, text_lt,
  filter, arith, any, update_where, text_eq_iff,
}
use sockpost.Common.Int.{ℤ, pos, negsuc}
use sockpost.Store.Tables.{Message, Db, max_rowid, same_id, fits, is_pending, acked, expired}
use sockpost.Store.Messages.{is_pending_for, is_known, is_ackable, is_orphan, resolved}
use sockpost.Store.Validity.{Ascending}
use sockpost.Store.Mailboxes.{Entry, entry, at_recipient}

abbrev pub queue_of : Text → List Message → List Entry
queue_of r ms = map entry (filter (is_pending_for r) ms)

-- An update that a queue does not see.
pub queue_of-unseen :
    (r : Text) (p : Message → Bool) (f : Message → Message) (ms : List Message)
    → ((m : Message) → is_pending_for r (f m) ≡ is_pending_for r m)
    → ((m : Message) → entry (f m) ≡ entry m)
    → queue_of r (update_where p f ms) ≡ queue_of r ms
queue_of-unseen r p f [] same keeps = refl
queue_of-unseen r p f (m ∷ ms) same keeps =
    ground (arith, same m, keeps m, queue_of-unseen r p f ms same keeps)

pub queue_of-append :
    (r : Text) (ms : List Message) (m : Message)
    → queue_of r (ms ++ m ∷ [])
      ≡ (if is_pending_for r m then queue_of r ms ++ entry m ∷ [] else queue_of r ms)
queue_of-append r [] m = ground arith
queue_of-append r (x ∷ ms) m = ground (arith, queue_of-append r ms m)

-- Resolving the row of `ack_message` takes its entry out of the recipient's queue.
pub queue_of-ack :
    (i : ℤ) (r : Text) (now : Text) (s : Text) (ms : List Message)
    → queue_of s (update_where (is_ackable i r) (resolved acked now) ms)
      ≡ at_recipient r (filter (λ e. not (same_id i e.id))) (λ t. queue_of t ms) s
unfolding is_pending_for is_ackable
queue_of-ack i r now s [] = ground arith
queue_of-ack i r now s (m ∷ ms) = ground (
  arith,
  queue_of-ack i r now s ms,
  text_eq_iff m.recipient s,
  text_eq_iff m.recipient r,
  text_eq_iff r s,
)

pub queue_of-no_ack :
    (i : ℤ) (r : Text) (ms : List Message)
    → any (is_ackable i r) ms ≡ false
    → filter (λ (e : Entry). not (same_id i e.id)) (queue_of r ms) ≡ queue_of r ms
unfolding is_pending_for is_ackable
queue_of-no_ack i r [] h = refl
queue_of-no_ack i r (m ∷ ms) h = ground (arith, queue_of-no_ack i r ms)

-- Ids that do not fit a parameter are the ids of no row.
pub not_fitting :
    (i : ℤ) (r : Text) (lo hi : ℕ) (ms : List Message)
    → fits i ≡ false
    → hi ≤ max_rowid
    → Ascending lo ms hi
    → (lo ≤ hi) × (any (is_ackable i r) ms ≡ false)
unfolding fits same_id is_ackable
not_fitting i r lo hi [] h k a = (a, refl)
not_fitting (pos n) r lo hi (m ∷ ms) h k a =
    ground (arith, not_fitting (pos n) r m.id hi ms h k a.1)
not_fitting (negsuc n) r lo hi (m ∷ ms) h k a =
    ground (arith, not_fitting (negsuc n) r m.id hi ms h k a.1)

sweep :
    (known : Text → Bool) (now cutoff r : Text) (ms : List Message)
    → queue_of r (
        update_where
          (λ m. is_pending m.state && text_lt m.created_at cutoff && not (known m.recipient))
          (resolved expired now)
          ms)
      ≡ (if known r
          then queue_of r ms
          else filter (λ (e : Entry). not (text_lt e.created_at cutoff)) (queue_of r ms))
unfolding is_pending_for
sweep known now cutoff r [] = ground arith
sweep known now cutoff r (m ∷ ms) =
    ground (arith, sweep known now cutoff r ms, text_eq_iff m.recipient r)

-- The sweep takes the old entries out of the queue of a recipient that never connected.
pub queue_of-expire :
    (now cutoff r : Text) (db : Db) (ms : List Message)
    → queue_of r (update_where (is_orphan cutoff db) (resolved expired now) ms) ≡ (
        if is_known r db
        then queue_of r ms
        else filter (λ (e : Entry). not (text_lt e.created_at cutoff)) (queue_of r ms))
unfolding is_orphan
queue_of-expire now cutoff r db ms = sweep (λ s. is_known s db) now cutoff r ms
