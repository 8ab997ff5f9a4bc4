-- ===== src/Store/History/Single.antt =====
-- The UPDATE of `ack_message` names the id alone: with ascending ids it changes one row.
use sockpost.Common.{
  ℕ, ◌≤◌, ◌≡◌, refl, Bool, true, false, List, [], ◌∷◌, arith, Text, any, update_where, Bool-cases,
  inl, inr,
}
use sockpost.Common.Int.{ℤ, pos, negsuc}
use sockpost.Store.Tables.{Message, same_id}
use sockpost.Store.Messages.{is_ackable}
use sockpost.Store.Validity.{Ascending}

update_where_none :
    (p : Message → Bool) (f : Message → Message) (ms : List Message)
    → any p ms ≡ false
    → update_where p f ms ≡ ms
update_where_none p f [] h = refl
update_where_none p f (m ∷ ms) h = ground (arith, update_where_none p f ms)

-- Above an id, no row has it.
no_same_id :
    (i : ℤ) (k lo hi : ℕ) (ms : List Message)
    → same_id i k ≡ true
    → k ≤ lo
    → Ascending lo ms hi
    → any (λ (m : Message). same_id i m.id) ms ≡ false
unfolding same_id
no_same_id i k lo hi [] h b a = refl
no_same_id (pos n) k lo hi (m ∷ ms) h b a = ground (arith, no_same_id (pos n) k m.id hi ms)
no_same_id (negsuc n) k lo hi (m ∷ ms) h b a = cc

not_ackable :
    (i : ℤ) (r : Text) (ms : List Message)
    → any (λ (m : Message). same_id i m.id) ms ≡ false
    → any (is_ackable i r) ms ≡ false
unfolding is_ackable
not_ackable i r [] h = refl
not_ackable i r (m ∷ ms) h = ground (arith, not_ackable i r ms)

-- With ascending ids the row that `ack_message` found is the only one that its UPDATE changes.
pub update_where-ackable :
    (i : ℤ) (r : Text) (f : Message → Message) (lo hi : ℕ) (ms : List Message)
    → Ascending lo ms hi
    → any (is_ackable i r) ms ≡ true
    → update_where (λ m. same_id i m.id) f ms ≡ update_where (is_ackable i r) f ms
unfolding is_ackable
update_where-ackable i r f lo hi [] a h = refl
update_where-ackable i r f lo hi (m ∷ ms) a h = elim (Bool-cases (same_id i m.id)) [
  | inl e ↦
      let none_left = no_same_id i m.id m.id hi ms e (omega arith) a.1 in
      let none_ackable = not_ackable i r ms none_left in
      rw
        (
          update_where_none (λ m. same_id i m.id) f ms none_left,
          update_where_none (is_ackable i r) f ms none_ackable,
        )
        (ground arith)
  | inr e ↦ ground (arith, update_where-ackable i r f m.id hi ms)
]
