-- ===== src/Daemon/Probes/Honesty.antt =====
-- Which channels a ping probe can report as answering.
use sockpost.Common.{
  ℕ, ◌-◌, ◌+◌, ◌≡◌, refl, sym, ap, subst, ◌∙◌, Bool, true, false, ◌&&◌, ◌||◌, List, [], ◌∷◌, Option,
  none, some, Text, codes, text_eq, text_eq_iff, text_eq_refl, text_instance, any, All, Bool-cases,
  inl, inr,
}
use sockpost.Common.Dict.{Dict, get, put, get-put, get-put_self}
use sockpost.Python.Value.{Request, field_of, to_text}
use sockpost.Daemon.Probes.{
  Probe, Probes, probe_name, or_no_one, ask, ask_all, start_probe, with_ack, acked_in, probe_id,
  collect, collect_ping_ack, acks_of, results_for, finish_probe,
}

is_nonempty : List ℕ → Bool
is_nonempty [] = false
is_nonempty (conn ∷ conns) = true

-- Somebody listens to a channel.
unfoldable pub has_listener : Dict Text (List ℕ) → Text → Bool
unfolding is_nonempty
has_listener receivers t = is_nonempty (or_no_one (get t receivers))

-- The `ping_ack` of a probe, for a channel.
same_id : Text → Option Text → Bool
same_id id none = false
same_id id (some s) = text_eq s id

unfoldable pub names : Text → Text → Request → Bool
unfolding same_id probe_id
names id t request =
    same_id id (probe_id (field_of (codes "probe_id") request))
    && text_eq (to_text (field_of (codes "id") request)) t

-- The acks of a probe that arrive while it waits, with their times.
unfoldable pub collect_all : List (ℕ × Request) → Probes → Probes
collect_all [] p = p
collect_all ((time, request) ∷ acks) p = collect_all acks (collect_ping_ack time request p)

sent_of : Option Probe → Dict Text ℕ
sent_of none = []
sent_of (some probe) = probe.sent

module _ (receivers : Dict Text (List ℕ)) where
  -- Only channels with a listener were asked.
  IsAsked : Dict Text ℕ → Type 0
  IsAsked sent = (t : Text) (n : ℕ) → get t sent ≡ some n → has_listener receivers t ≡ true

  put-IsAsked :
      (target : Text) (time : ℕ) (sent : Dict Text ℕ)
      → has_listener receivers target ≡ true
      → IsAsked sent
      → IsAsked (put target time sent)
  unfolding IsAsked
  put-IsAsked target time sent listens h = λ t n e. elim (Bool-cases (text_eq target t)) [
    | inl f ↦ rw (← (text_eq_iff target t).0 f) listens
    | inr f ↦ h t n (rw (get-put target t time sent, f) at e)
  ]

  ask-IsAsked :
      (id target : Text) (conns : List ℕ) (time : ℕ) (state : Probe × List (ℕ × Text))
      → or_no_one (get target receivers) ≡ conns
      → IsAsked state.0.sent
      → IsAsked (ask id target conns time state).0.sent
  unfolding ask has_listener
  ask-IsAsked id target [] time (probe, checks) q h = h
  ask-IsAsked id target (conn ∷ conns) time (probe, checks) q h =
      put-IsAsked target time probe.sent (rw q refl) h

  ask_all-IsAsked :
      (id : Text) (time : ℕ) (targets : List Text) (state : Probe × List (ℕ × Text))
      → IsAsked state.0.sent
      → IsAsked (ask_all id receivers time targets state).0.sent
  unfolding ask_all
  ask_all-IsAsked id time [] state h = h
  ask_all-IsAsked id time (target ∷ targets) state h =
      ask_all-IsAsked id time targets _
        (ask-IsAsked id target (or_no_one (get target receivers)) time state refl h)

  ask-acks :
      (id target : Text) (conns : List ℕ) (time : ℕ) (state : Probe × List (ℕ × Text))
      → (ask id target conns time state).0.acks ≡ state.0.acks
  unfolding ask
  ask-acks id target [] time (probe, checks) = refl
  ask-acks id target (conn ∷ conns) time (probe, checks) = refl

  ask_all-acks :
      (id : Text) (time : ℕ) (targets : List Text) (state : Probe × List (ℕ × Text))
      → (ask_all id receivers time targets state).0.acks ≡ state.0.acks
  unfolding ask_all
  ask_all-acks id time [] state = refl
  ask_all-acks id time (target ∷ targets) state =
      ask_all-acks id time targets _
      ∙ ask-acks id target (or_no_one (get target receivers)) time state

  module _ (id : Text) (Named : Text → Type 0) where
    -- Only channels that were asked and have answered have a latency.
    record IsHonest (o : Option Probe) : Type 0 where
      asked : IsAsked (sent_of o)
      named :
          (t : Text) (l : ℕ)
          → get t (acks_of o) ≡ some l
          → (has_listener receivers t ≡ true) × Named t

    with_ack-IsHonest :
        (time : ℕ) (u : Text) (probe : Probe) (sent : Option ℕ)
        → get u probe.sent ≡ sent
        → Named u
        → IsHonest (some probe)
        → IsHonest (some (with_ack time u probe sent))
    unfolding with_ack sent_of acks_of IsAsked
    with_ack-IsHonest time u probe none q n h = h
    with_ack-IsHonest time u probe (some at) q n h = record {
      asked = h.asked;
      named = λ t l e. elim (Bool-cases (text_eq u t)) [
        | inl f ↦ rw (← (text_eq_iff u t).0 f) (h.asked u at q, n)
        | inr f ↦ h.named t l (rw (get-put u t (time - at) probe.acks, f) at e)
      ];
    }

    acked_in-IsHonest :
        (time : ℕ) (s u : Text) (found : Option Probe) (probes : Dict Text Probe)
        → get s probes ≡ found
        → (text_eq s id ≡ true → Named u)
        → IsHonest (get id probes)
        → IsHonest (get id (acked_in time s u found probes))
    unfolding acked_in
    acked_in-IsHonest time s u none probes q n h = h
    acked_in-IsHonest time s u (some probe) probes q n h = elim (Bool-cases (text_eq s id)) [
      | inl f ↦
          rw (get-put s id (with_ack time u probe (get u probe.sent)) probes, f)
            (with_ack-IsHonest time u probe (get u probe.sent) refl (n f)
              (subst IsHonest (sym (ap (λ k. get k probes) ((text_eq_iff s id).0 f)) ∙ q) h))
      | inr f ↦ rw (get-put s id (with_ack time u probe (get u probe.sent)) probes, f) h
    ]

    collect-IsHonest :
        (time : ℕ) (key : Option Text) (u : Text) (p : Probes)
        → (same_id id key ≡ true → Named u)
        → IsHonest (get id p.running)
        → IsHonest (get id (collect time key u p).running)
    unfolding collect same_id
    collect-IsHonest time none u p n h = h
    collect-IsHonest time (some s) u p n h =
        acked_in-IsHonest time s u (get s p.running) p.running refl n h

    collect_all-IsHonest :
        (acks : List (ℕ × Request)) (p : Probes)
        → All (λ (time, request). (t : Text) → names id t request ≡ true → Named t) acks
        → IsHonest (get id p.running)
        → IsHonest (get id (collect_all acks p).running)
    unfolding collect_all collect_ping_ack names
    collect_all-IsHonest [] p n h = h
    collect_all-IsHonest ((time, request) ∷ acks) p (n, ns) h =
        collect_all-IsHonest acks (collect_ping_ack time request p) ns (
          collect-IsHonest time (probe_id (field_of (codes "probe_id") request))
            (to_text (field_of (codes "id") request)) p
            (λ e.
              n (to_text (field_of (codes "id") request))
                (rw (e, text_eq_refl (to_text (field_of (codes "id") request))) refl))
            h)

-- An ack of the probe for the channel is among those that came.
abbrev pub is_named : Text → Text → List (ℕ × Request) → Bool
is_named id t acks = any (λ (time, request). names id t request) acks

each-is_named :
    (id : Text) (whole acks : List (ℕ × Request))
    → ((t : Text) → is_named id t acks ≡ true → is_named id t whole ≡ true)
    → All
        (λ (time, request). (t : Text) → names id t request ≡ true → is_named id t whole ≡ true)
        acks
each-is_named id whole [] f = tt
each-is_named id whole ((time, request) ∷ acks) f = (
  λ t h. f t (rw h refl),
  each-is_named id whole acks (λ t h. f t (or_right (names id t request) h)),
)
  where
    or_right : {b : Bool} (a : Bool) → b ≡ true → (a || b) ≡ true
    or_right true h = refl
    or_right false h = h

get-results_for :
    (t : Text) (l : ℕ) (targets : List Text) (acks : Dict Text ℕ)
    → get t (results_for targets acks) ≡ some (some l)
    → get t acks ≡ some l
unfolding results_for get
get-results_for t l [] acks h = absurd cc
get-results_for t l (target ∷ targets) acks h = elim (Bool-cases (text_eq target t)) [
  | inl f ↦
      let e : some (get target acks) ≡ some (some l) =
        rw (get-put target t (get target acks) (results_for targets acks), f) at h in
      rw (← (text_eq_iff target t).0 f) (some-inj e)
  | inr f ↦
      get-results_for t l targets acks
        (rw (get-put target t (get target acks) (results_for targets acks), f) at h)
]
  where
    some-inj : {a b : Option ℕ} → some a ≡ some b → a ≡ b
    some-inj q = cc

started-IsHonest :
    (time : ℕ) (receivers : Dict Text (List ℕ)) (targets : List Text) (p : Probes)
    (Named : Text → Type 0)
    → let (id, started) = start_probe time receivers targets p in
      IsHonest receivers id Named (get id started.running)
unfolding start_probe sent_of acks_of IsAsked
started-IsHonest time receivers targets p Named =
    let id = probe_name (p.sequence + 1) time in
    let first : Probe = record { sent = []; acks = []; done = false } in
    let asked = ask_all id receivers time targets (first, p.checks) in
    subst (IsHonest receivers id Named) (sym (get-put_self id asked.0 p.running)) (record {
      asked = ask_all-IsAsked receivers id time targets (first, p.checks) nobody;
      named = λ t l e.
          absurd (nothing t l (rw (ask_all-acks receivers id time targets (first, p.checks)) at e));
    })
  where
    nobody : IsAsked receivers []
    nobody = λ t n e. absurd (nothing t n e)
      where
        nothing : (t : Text) (n : ℕ) → get t [] ≡ some n → ⊥
        nothing t n e = unfold get in absurd cc

    nothing : (t : Text) (n : ℕ) → get t [] ≡ some n → ⊥
    nothing t n e = unfold get in absurd cc

-- Whatever acks arrive while a probe waits, its result gives a latency only for a channel that somebody
-- listened to when the probe began, and that answered by an ack with the probe's id.
pub finish_probe-named :
    (time : ℕ) (receivers : Dict Text (List ℕ)) (targets : List Text) (p : Probes)
    (acks : List (ℕ × Request)) (t : Text) (l : ℕ)
    → let (id, started) = start_probe time receivers targets p in
      get t (finish_probe id targets (collect_all acks started)).0 ≡ some (some l)
      → (has_listener receivers t ≡ true) × (is_named id t acks ≡ true)
unfolding start_probe finish_probe
finish_probe-named time receivers targets p acks t l h =
    let id = probe_name (p.sequence + 1) time in
    let started = (start_probe time receivers targets p).1 in
    let honest =
      collect_all-IsHonest receivers id (λ u. is_named id u acks ≡ true) acks started
        (each-is_named id acks acks (λ u e. e))
        (started-IsHonest time receivers targets p (λ u. is_named id u acks ≡ true)) in
    honest.named t l
      (get-results_for t l targets (acks_of (get id (collect_all acks started).running)) h)
