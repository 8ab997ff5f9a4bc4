-- ===== src/Daemon/Forwarding.antt =====
-- What an accepted forward inserts.
use sockpost.Common.{
  ℕ, ◌+◌, ◌≡◌, refl, ap, ◌∙◌, Bool, true, false, ◌&&◌, List, [], ◌∷◌, Option, none, some, ltb, leb,
  ◌==◌, arith, subst, Text, codes, text_eq, find?, Bool-cases, inl, inr,
}
use sockpost.Common.Int.{ℤ, pos, negsuc}
use sockpost.Common.Result.{Result, ok, err, bind-ok}
use sockpost.Python.Value.{Value, Request, field_of, to_int, Conversion, number, invalid, overflow}
use sockpost.Protocol.Forward.{forward_hops, split_forward}
use sockpost.Protocol.Forward.RoundTrip.{forward_hops-forward_body, split_forward-forward_body}
use sockpost.Protocol.Channel.{validate_channel, ChannelError}
use sockpost.Store.Tables.{max_rowid, Db, Message, is_pending}
use sockpost.Store.Messages.{get_message}
use sockpost.Daemon.State.{Settings, Problem}
use sockpost.Daemon.Requests.{
  channel_or_problem, Copy, checked_copy, checked_forward, channel_field, exceeds, within_limit,
  utf8_size, copy_of, number_or_problem, source_or_problem, unless, hops_or_problem,
}

-- What the daemon promises of the copy.
pub record IsCopy (settings : Settings) (request : Request) (db : Db) (copy : Copy) : Type 0 where
  pub forwarder : validate_channel (field_of (codes "from") request) ≡ ok copy.mail.sender
  pub recipient : validate_channel (field_of (codes "to") request) ≡ ok copy.mail.recipient
  pub source : Message
  pub hops : ℕ
  pub asked : to_int (field_of (codes "src_id") request) ≡ number (pos copy.source_id)
  pub found : get_message (pos copy.source_id) db ≡ some source
  pub not_waiting :
      (text_eq source.recipient copy.mail.recipient && is_pending source.state) ≡ false
  pub source_hops : forward_hops source.body ≡ some hops
  pub one_more : copy.hops ≡ hops + 1
  pub counted : forward_hops copy.mail.body ≡ some copy.hops
  pub bounded : exceeds copy.hops settings.max_forward_hops ≡ false
  pub same_text : (split_forward copy.mail.body).1 ≡ (split_forward source.body).1
  pub fits :
      (size : ℕ) × (utf8_size copy.mail.body ≡ some size)
      × (exceeds size settings.max_body_bytes ≡ false)

channel_field-ok :
    (key : Text) (request : Request) (channel : Text)
    → channel_field key request ≡ ok channel
    → validate_channel (field_of key request) ≡ ok channel
unfolding channel_field channel_or_problem
channel_field-ok key request channel q = by_result _ q
  where
    by_result : (r : Result ChannelError Text) → channel_or_problem r ≡ ok channel → r ≡ ok channel
    by_result (ok c) q = cc
    by_result (err e) q = absurd cc

within_limit-ok :
    (limit : ℤ) (body body' : Text) (o : Option ℕ)
    → within_limit limit body o ≡ ok body'
    → (body' ≡ body) × (size : ℕ) × (o ≡ some size) × (exceeds size limit ≡ false)
unfolding within_limit
within_limit-ok limit body body' none q = absurd cc
within_limit-ok limit body body' (some size) q = elim (Bool-cases (exceeds size limit)) [
  | inl e ↦ absurd (absurd_ok (rw e at q))
  | inr e ↦ (ground arith, size, refl, e)
]
  where
    absurd_ok : {p : Problem} → err p ≡ ok body' → ⊥
    absurd_ok q = absurd cc

find?-true : {A : Type 0} (p : A → Bool) (xs : List A) (x : A) → find? p xs ≡ some x → p x ≡ true
find?-true p [] x q = absurd cc
find?-true p (y ∷ ys) x q = ground (arith, find?-true p ys x)

get_message-id : (z : ℤ) (db : Db) (m : Message) → get_message z db ≡ some m → z ≡ pos m.id
unfolding get_message
get_message-id (negsuc n) db m q = absurd cc
get_message-id (pos n) db m q =
    let same : (m.id == n) ≡ true = elim (Bool-cases (ltb 0 n && leb n max_rowid)) [
      | inl e ↦ find?-true (λ (m : Message). m.id == n) db.messages m (ground arith)
      | inr e ↦ absurd (none_found (rw e at q))
    ] in
    ap pos (ground arith)
  where
    none_found : none ≡ some m → ⊥
    none_found q = absurd cc

number_or_problem-ok : (c : Conversion) (z : ℤ) → number_or_problem c ≡ ok z → c ≡ number z
unfolding number_or_problem
number_or_problem-ok (number y) z q = cc
number_or_problem-ok invalid z q = absurd cc
number_or_problem-ok overflow z q = absurd cc

source_or_problem-ok :
    (z : ℤ) (o : Option Message) (m : Message) → source_or_problem z o ≡ ok m → o ≡ some m
unfolding source_or_problem
source_or_problem-ok z none m q = absurd cc
source_or_problem-ok z (some n) m q = cc

unless-ok : (b : Bool) (p : Problem) (u : Unit) → unless b p ≡ ok u → b ≡ false
unfolding unless
unless-ok true p u q = absurd cc
unless-ok false p u q = refl

hops_or_problem-ok : (z : ℤ) (o : Option ℕ) (h : ℕ) → hops_or_problem z o ≡ ok h → o ≡ some h
unfolding hops_or_problem
hops_or_problem-ok z none h q = absurd cc
hops_or_problem-ok z (some n) h q = cc

ok-injective : {E A : Type 0} (a b : A) → Path (Result E A) (ok a) (ok b) → a ≡ b
ok-injective a b q = cc

abbrev copied : Text → Text → Message → ℕ → Text → Copy
copied forwarder recipient m hops body = record {
  mail = record { sender = forwarder; recipient = recipient; body = body };
  source_id = m.id;
  hops = hops + 1;
}

-- What the guards on the message that was found have established.
record IsChecked (settings : Settings) (forwarder recipient : Text) (note : Value) (m : Message)
    (copy : Copy) : Type 0 where
  hops : ℕ
  not_waiting : (text_eq m.recipient recipient && is_pending m.state) ≡ false
  source_hops : forward_hops m.body ≡ some hops
  bounded : exceeds (hops + 1) settings.max_forward_hops ≡ false
  made : copied forwarder recipient m hops (copy_of forwarder m hops note) ≡ copy
  size : ℕ
  sized : utf8_size (copy_of forwarder m hops note) ≡ some size
  fits : exceeds size settings.max_body_bytes ≡ false

checked_copy-IsChecked :
    (settings : Settings) (forwarder recipient : Text) (note : Value) (z : ℤ) (m : Message)
    (copy : Copy)
    → checked_copy settings forwarder recipient note z m ≡ ok copy
    → IsChecked settings forwarder recipient note m copy
unfolding checked_copy
checked_copy-IsChecked settings forwarder recipient note z m copy q =
    let (u, q5, r5) =
      bind-ok (unless (text_eq m.recipient recipient && is_pending m.state) _) _ copy q in
    let (hops, q6, r6) = bind-ok (hops_or_problem z (forward_hops m.body)) _ copy r5 in
    let (v, q7, r7) = bind-ok (unless (exceeds (hops + 1) settings.max_forward_hops) _) _ copy r6 in
    let (body, q8, r8) = bind-ok (within_limit settings.max_body_bytes _ _) _ copy r7 in
    let (same, size, sized, small) =
      within_limit-ok settings.max_body_bytes (copy_of forwarder m hops note) body _ q8 in
    record {
      hops = hops;
      not_waiting = unless-ok _ _ u q5;
      source_hops = hops_or_problem-ok z _ hops q6;
      bounded = unless-ok _ _ v q7;
      made =
          subst (λ b. copied forwarder recipient m hops b ≡ copy) same
            (ok-injective (copied forwarder recipient m hops body) copy r8);
      size = size;
      sized = sized;
      fits = small;
    }

module _ (settings : Settings) (request : Request) (db : Db) (forwarder recipient : Text) (z : ℤ)
    (m : Message) (note : Value) (copy : Copy) where
  checked-IsCopy :
      channel_field (codes "from") request ≡ ok forwarder
      → channel_field (codes "to") request ≡ ok recipient
      → number_or_problem (to_int (field_of (codes "src_id") request)) ≡ ok z
      → get_message z db ≡ some m
      → IsChecked settings forwarder recipient note m copy
      → IsCopy settings request db copy
  unfolding copy_of
  checked-IsCopy q1 q2 q3 q4 c =
      let z_id : z ≡ pos m.id = get_message-id z db m q4 in
      subst (IsCopy settings request db) c.made (record {
        forwarder = channel_field-ok (codes "from") request forwarder q1;
        recipient = channel_field-ok (codes "to") request recipient q2;
        source = m;
        hops = c.hops;
        asked = number_or_problem-ok _ _ q3 ∙ ap number z_id;
        found = rw (← z_id) q4;
        not_waiting = c.not_waiting;
        source_hops = c.source_hops;
        one_more = refl;
        counted = forward_hops-forward_body _ _ _ _ _ _ _;
        bounded = c.bounded;
        same_text = rw (split_forward-forward_body) refl;
        fits = (c.size, c.sized, c.fits);
      })

-- A forward that is accepted makes a copy from the caller to the recipient it names, of the message that
-- it names and with that message's text, its hop count one more than the source's, readable in the copy
-- and within the limit, as its size is; and never of a message still on its way to the same channel.
pub checked_forward-IsCopy :
    (settings : Settings) (request : Request) (db : Db) (copy : Copy)
    → checked_forward settings request db ≡ ok copy
    → IsCopy settings request db copy
unfolding checked_forward
checked_forward-IsCopy settings request db copy q =
    let (forwarder, q1, r1) = bind-ok (channel_field (codes "from") request) _ copy q in
    let (recipient, q2, r2) = bind-ok (channel_field (codes "to") request) _ copy r1 in
    let (z, q3, r3) =
      bind-ok (number_or_problem (to_int (field_of (codes "src_id") request))) _ copy r2 in
    let (m, q4, r4) = bind-ok (source_or_problem z (get_message z db)) _ copy r3 in
    checked-IsCopy settings request db forwarder recipient z m (field_of (codes "note") request)
      copy q1 q2 q3 (source_or_problem-ok z _ m q4)
      (checked_copy-IsChecked settings forwarder recipient (field_of (codes "note") request) z m
        copy r4)
