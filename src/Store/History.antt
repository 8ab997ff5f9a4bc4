-- ===== src/Store/History.antt =====
-- The queue as an archive: what no call of store.py removes, changes or takes back.
pub mod Single
pub mod Calls
use sockpost.Common.{
  ℕ, zero, suc, ◌+◌, ◌≤◌, ◌<◌, ◌≡◌, ◌≢◌, refl, Bool, true, false, not, ◌&&◌, List, [], ◌∷◌, ◌++◌,
  map, Option, none, some, arith, leb, ltb, ◌==◌, if◌then◌else◌, Text, text_eq, text_eq_iff, any,
  update_where, Bool-cases, find?, inl, inr, append-nil, append_assoc, ◌∙◌, ap, sym,
}
use sockpost.Common.Int.{ℤ, pos, negsuc}
use sockpost.Store.Tables.{
  State, pending, acked, expired, is_pending, Message, Db, max_rowid, same_id, fits,
}
use sockpost.Store.Messages.{
  insert_message, mark_delivered, mark_failure_reported, reset_pending, ack_message, expire_orphans,
  is_ackable, is_pending_for, is_orphan, get_message, delivered, reported, undelivered, resolved,
}
use sockpost.Store.Channels.{set_channel_state, reset_all_channels}
use sockpost.Store.Wakeups.{save_wakeup, delete_wakeup}
use sockpost.Store.Operations.{
  Operation, inserts, delivers, reports, resets, acks, expires, sets_channel, resets_channels,
  saves_wakeup, deletes_wakeup, apply, run,
}

-- How a row may change: never its id, its addresses, its body or its time of creation; and once it has
-- left the pending state, neither its state nor its time of resolution.
pub record Succeeds (old new : Message) : Type 0 where
  pub id : new.id ≡ old.id
  pub recipient : new.recipient ≡ old.recipient
  pub sender : new.sender ≡ old.sender
  pub body : new.body ≡ old.body
  pub created_at : new.created_at ≡ old.created_at
  pub settled :
      is_pending old.state ≡ false → (new.state ≡ old.state) × (new.resolved_at ≡ old.resolved_at)

-- The new table holds the old rows in place, each as it may have changed, and perhaps more behind them.
abbrev pub Extends : List Message → List Message → Type 0
Extends [] new = Unit
Extends (m ∷ ms) [] = ⊥
Extends (m ∷ ms) (n ∷ ns) = Succeeds m n × Extends ms ns

pub Succeeds-refl : (m : Message) → Succeeds m m
Succeeds-refl m = record {
  id = refl;
  recipient = refl;
  sender = refl;
  body = refl;
  created_at = refl;
  settled = λ h. (refl, refl);
}

pub Succeeds-trans : (a b c : Message) → Succeeds a b → Succeeds b c → Succeeds a c
Succeeds-trans a b c p q = record {
  id = q.id ∙ p.id;
  recipient = q.recipient ∙ p.recipient;
  sender = q.sender ∙ p.sender;
  body = q.body ∙ p.body;
  created_at = q.created_at ∙ p.created_at;
  settled = λ h.
      let (s, r) = p.settled h in
      let (s', r') = q.settled (ap is_pending s ∙ h) in (s' ∙ s, r' ∙ r);
}

pub Extends-append : (ms ns : List Message) → Extends ms (ms ++ ns)
Extends-append [] ns = tt
Extends-append (m ∷ ms) ns = (Succeeds-refl m, Extends-append ms ns)

pub Extends-refl : (ms : List Message) → Extends ms ms
Extends-refl [] = tt
Extends-refl (m ∷ ms) = (Succeeds-refl m, Extends-refl ms)

pub Extends-trans : (ms ns os : List Message) → Extends ms ns → Extends ns os → Extends ms os
Extends-trans [] ns os p q = tt
Extends-trans (m ∷ ms) [] os p q = absurd p
Extends-trans (m ∷ ms) (n ∷ ns) [] p q = absurd q
Extends-trans (m ∷ ms) (n ∷ ns) (o ∷ os) p q =
    (Succeeds-trans m n o p.0 q.0, Extends-trans ms ns os p.1 q.1)

-- An update under a guard: it need only respect the rows that pass.
pub Extends-update_where :
    (p : Message → Bool) (f : Message → Message) (ms : List Message)
    → ((m : Message) → p m ≡ true → Succeeds m (f m))
    → Extends ms (update_where p f ms)
Extends-update_where p f [] h = tt
Extends-update_where p f (m ∷ ms) h = elim (Bool-cases (p m)) [
  | inl e ↦ rw e (h m e, Extends-update_where p f ms h)
  | inr e ↦ rw e (Succeeds-refl m, Extends-update_where p f ms h)
]
