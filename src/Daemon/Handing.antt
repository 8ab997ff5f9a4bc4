-- ===== src/Daemon/Handing.antt =====
-- What a round of delivery hands out: the oldest message that is due, to a connection of its channel.
use sockpost.Common.{
  ℕ, zero, suc, ◌≡◌, ◌⊎◌, ◌↔◌, refl, ap, Bool, true, false, not, ◌&&◌, List, Option, none, text_lt,
  text_eq_iff, [], ◌∷◌, ◌++◌, some, arith, Text, filter, take, length, All, Bool-cases,
  Option-cases, inl, inr,
}
use sockpost.Common.Int.{ℤ, pos, negsuc}
use sockpost.Store.Tables.{Message, State, pending, acked, expired, is_pending}
use sockpost.Store.Messages.{is_pending_for, pending_batch, limited}
use sockpost.Daemon.State.{Daemon, Moment, message, include, is_member}
use sockpost.Daemon.Delivery.{
  receivers_of, is_recent, is_eligible, eligible, first_taking, offer, handed_out, deliver_one,
  arm_ack_watchdog, arm_redelivery,
}

module _ {A : Type 0} where
  -- The first entry that passes, and what stands around it.
  abbrev FirstOf : (A → Bool) → List A → A → Type 0
  FirstOf p xs x =
      (before after : List A) × (xs ≡ before ++ x ∷ after)
      × All (λ y. p y ≡ false) before
      × (p x ≡ true)

  abbrev FirstWith : (A → Type 0) → List A → A → Type 0
  FirstWith P xs x =
      (before after : List A) × (xs ≡ before ++ x ∷ after) × All (λ y. ¬ P y) before × P x

  FirstOf-cons :
      (p : A → Bool) (y : A) (xs : List A) (x : A)
      → p y ≡ false
      → FirstOf p xs x
      → FirstOf p (y ∷ xs) x
  FirstOf-cons p y xs x e (before, after, q, a, h) =
      (y ∷ before, after, ap (λ zs. y ∷ zs) q, (e, a), h)

  FirstOf-batch :
      (p q : A → Bool) (n : ℕ) (xs : List A) (x : A) (rest : List A)
      → filter q (take n (filter p xs)) ≡ x ∷ rest
      → FirstOf (λ y. p y && q y) xs x
  FirstOf-batch p q zero [] x rest h = absurd cc
  FirstOf-batch p q (suc n) [] x rest h = absurd cc
  FirstOf-batch p q zero (y ∷ xs) x rest h = absurd cc
  FirstOf-batch p q (suc n) (y ∷ xs) x rest h = elim (Bool-cases (p y)) [
    | inl e ↦ elim (Bool-cases (q y)) [
      | inl f ↦
          let same : y ≡ x = ground arith in
          ([], xs, ap (λ z. z ∷ xs) same, tt, rw (← same) (ground arith))
      | inr f ↦
          FirstOf-cons _ y xs x (ground arith) (FirstOf-batch p q n xs x rest (rw (e, f) at h))
    ]
    | inr e ↦ FirstOf-cons _ y xs x (ground arith) (FirstOf-batch p q (suc n) xs x rest (rw e at h))
  ]

  take-length : (xs : List A) → take (length xs) xs ≡ xs
  take-length [] = refl
  take-length (x ∷ xs) = ap (λ zs. x ∷ zs) (take-length xs)

  FirstOf-limited :
      (p q : A → Bool) (limit : ℤ) (xs : List A) (x : A) (rest : List A)
      → filter q (limited limit (filter p xs)) ≡ x ∷ rest
      → FirstOf (λ y. p y && q y) xs x
  unfolding limited
  FirstOf-limited p q (pos n) xs x rest h = FirstOf-batch p q n xs x rest h
  FirstOf-limited p q (negsuc n) xs x rest h =
      FirstOf-batch p q (length (filter p xs)) xs x rest (rw (take-length (filter p xs)) h)

-- A connection that takes the write is among those asked, and none before it did.
first_taking-FirstOf :
    (w : Moment) (conns : List ℕ) (conn : ℕ)
    → first_taking w conns ≡ some conn
    → FirstOf w.takes conns conn
unfolding first_taking
first_taking-FirstOf w [] conn q = absurd cc
first_taking-FirstOf w (c ∷ cs) conn q = elim (Bool-cases (w.takes c)) [
  | inl e ↦ let same : c ≡ conn = ground arith in ([], cs, ap (λ z. z ∷ cs) same, tt, rw (← same) e)
  | inr e ↦ FirstOf-cons _ c cs conn e (first_taking-FirstOf w cs conn (rw e at q))
]

-- A message is due for a channel: it is pending there, it is not in flight, and it was not sent, or last
-- sent before the cutoff.
abbrev pub IsDue : Moment → Text → Daemon → Message → Type 0
IsDue w channel d m =
    (m.recipient ≡ channel)
    × (m.state ≡ pending)
    × (is_member m.id d.inflight ≡ false)
    × ((m.delivered_at ≡ none)
        ⊎ ((sent_at : Text) × (m.delivered_at ≡ some sent_at)
            × (text_lt sent_at w.redelivery_cutoff ≡ true)))

-- The code's two tests.
abbrev is_due : Moment → Text → Daemon → Message → Bool
is_due w channel d m = is_pending_for channel m && is_eligible w d m

is_recent_iff :
    (cutoff : Text) (o : Option Text)
    → (is_recent cutoff o ≡ false)
      ↔ ((o ≡ none) ⊎ ((sent_at : Text) × (o ≡ some sent_at) × (text_lt sent_at cutoff ≡ true)))
unfolding is_recent
is_recent_iff cutoff none = (λ e. inl refl, λ h. refl)
is_recent_iff cutoff (some t) = (λ e. inr (t, refl, ground arith), old)
  where
    old :
        ((some t ≡ none)
          ⊎ ((sent_at : Text) × (some t ≡ some sent_at) × (text_lt sent_at cutoff ≡ true)))
        → not (text_lt t cutoff) ≡ false
    old (inl q) = absurd cc
    old (inr (sent_at, q, h)) = let same : t ≡ sent_at = cc in rw (same, h) refl

is_pending_iff : (s : State) → (is_pending s ≡ true) ↔ (s ≡ pending)
is_pending_iff pending = (λ e. refl, λ e. refl)
is_pending_iff acked = (λ e. absurd (ground arith), λ e. absurd cc)
is_pending_iff expired = (λ e. absurd (ground arith), λ e. absurd cc)

is_due_iff :
    (w : Moment) (channel : Text) (d : Daemon) (m : Message)
    → (is_due w channel d m ≡ true) ↔ IsDue w channel d m
unfolding is_pending_for is_eligible
is_due_iff w channel d m =
    let (to_recent, from_recent) = is_recent_iff w.redelivery_cutoff m.delivered_at in
    let (to_pending, from_pending) = is_pending_iff m.state in
    let (to_same, from_same) = text_eq_iff m.recipient channel in
    (
      λ e. (
        to_same (ground arith),
        to_pending (ground arith),
        ground arith,
        to_recent (ground arith),
      ),
      λ (q, p, i, r). rw (from_same q, from_pending p, i, from_recent r) refl,
    )

FirstOf-FirstWith :
    (w : Moment) (channel : Text) (d : Daemon) (m : Message)
    → FirstOf (is_due w channel d) d.db.messages m
    → FirstWith (IsDue w channel d) d.db.messages m
FirstOf-FirstWith w channel d m (before, after, q, earlier, due) =
    (before, after, q, none_due before earlier, (is_due_iff w channel d m).0 due)
  where
    none_due :
        (ms : List Message)
        → All (λ m. is_due w channel d m ≡ false) ms
        → All (λ m. ¬ IsDue w channel d m) ms
    none_due [] a = tt
    none_due (x ∷ xs) (e, a) =
        (λ h. absurd (ground (arith, (is_due_iff w channel d x).1 h)), none_due xs a)

-- What a delivery comes to. With nothing delivered, no message of the batch is due, or no connection of the
-- channel takes a write.
abbrev pub Handed : Moment → Text → Daemon → (Bool × Bool) × Daemon → Type 0
Handed w channel d ((false, more), d') =
    (d' ≡ d)
    × (All (λ m. ¬ IsDue w channel d m) (pending_batch channel d.settings.drain_batch d.db)
        ⊎ All (λ conn. w.takes conn ≡ false) (receivers_of channel d))
Handed w channel d ((true, more), d') =
    (m : Message) × (conn : ℕ) × FirstWith (IsDue w channel d) d.db.messages m
    × FirstOf w.takes (receivers_of channel d) conn
    × (d'.sent ≡ d.sent ++ (conn, message m.id m.sender m.body m.created_at) ∷ [])
    × (d'.inflight ≡ include m.id d.inflight)

first_taking-none :
    (w : Moment) (conns : List ℕ)
    → first_taking w conns ≡ none
    → All (λ conn. w.takes conn ≡ false) conns
unfolding first_taking
first_taking-none w [] q = tt
first_taking-none w (c ∷ cs) q = elim (Bool-cases (w.takes c)) [
  | inl e ↦ absurd (some-ne (rw e at q))
  | inr e ↦ (e, first_taking-none w cs (rw e at q))
]
  where
    some-ne : some c ≡ none → ⊥
    some-ne r = cc

eligible-none :
    (w : Moment) (channel : Text) (d : Daemon) (ms : List Message)
    → filter (is_eligible w d) ms ≡ []
    → All (λ m. ¬ IsDue w channel d m) ms
eligible-none w channel d [] q = tt
eligible-none w channel d (m ∷ ms) q = elim (Bool-cases (is_eligible w d m)) [
  | inl e ↦ absurd (cons-ne (rw e at q))
  | inr e ↦ (
    λ h. absurd (ground (arith, (is_due_iff w channel d m).1 h)),
    eligible-none w channel d ms (rw e at q),
  )
]
  where
    cons-ne : {xs : List Message} → m ∷ xs ≡ [] → ⊥
    cons-ne r = cc

offer-Handed :
    (w : Moment) (channel : Text) (ms : List Message) (d : Daemon)
    → (ms ≡ []
        → All (λ m. ¬ IsDue w channel d m) (pending_batch channel d.settings.drain_batch d.db))
    → ((m : Message) (rest : List Message)
        → ms ≡ m ∷ rest
        → FirstOf (is_due w channel d) d.db.messages m)
    → Handed w channel d (offer w channel ms d)
unfolding offer
offer-Handed w channel [] d g f = (refl, inl (g refl))
offer-Handed w channel (m ∷ ms) d g f =
    elim (Option-cases (first_taking w (receivers_of channel d))) [
      | inl q ↦ rw (offer, q) (refl, inr (first_taking-none w (receivers_of channel d) q))
      | inr (conn, q) ↦
          rw (offer, q)
            (
              m,
              conn,
              FirstOf-FirstWith w channel d m (f m ms refl),
              first_taking-FirstOf w _ conn q,
              unfold handed_out arm_redelivery arm_ack_watchdog in refl,
              unfold handed_out arm_redelivery arm_ack_watchdog in refl,
            )
    ]

-- A delivery hands out the oldest message that is due for the channel, to the first connection of
-- the channel that takes it, and marks it in flight. One that delivers nothing changes nothing, and either no
-- message of its batch is due or none of the channel's connections takes a write.
pub deliver_one-Handed :
    (w : Moment) (channel : Text) (d : Daemon) → Handed w channel d (deliver_one w channel d)
unfolding deliver_one eligible
deliver_one-Handed w channel d =
    offer-Handed w channel (eligible w channel d) d
      (λ q. eligible-none w channel d (pending_batch channel d.settings.drain_batch d.db) q)
      (λ m rest q.
        FirstOf-limited (is_pending_for channel) (is_eligible w d) d.settings.drain_batch
          d.db.messages m rest (unfold pending_batch in q))
