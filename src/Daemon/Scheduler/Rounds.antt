-- ===== src/Daemon/Scheduler/Rounds.antt =====
-- Rounds of the scheduler keep its invariant, and so does any sequence of calls on it from the start.
use sockpost.Common.{
  ℕ, ◌≡◌, refl, Bool, true, List, [], ◌∷◌, Option, none, some, ltb, arith, All, find?, Bool-cases,
  inl, inr, Eq, subst,
}
use sockpost.Common.Int.{ℤ}
use sockpost.Common.Dict.{get}
use sockpost.Daemon.Scheduler.{
  Timer, Scheduler, Round, waits, drops, calls, arm, cancel, release, round, idle, is_live,
}
use sockpost.Daemon.Scheduler.Soundness.{
  IsSound, is_none, arm-IsSound, cancel-IsSound, release-IsSound,
}

module _ {K C : Type 0} where
  -- A predicate of the scheduler that a round leaves behind.
  abbrev pub After : (Scheduler K C → Type 0) → Round K C → Type 0
  After P waits = Unit
  After P (drops s) = P s
  After P (calls c s) = P s

  pub find?-All :
      (P : Timer K C → Type 0) (p : Timer K C → Bool) (t : Timer K C) (h : List (Timer K C))
      → All P h
      → find? p h ≡ some t
      → P t
  find?-All P p t [] a q = absurd cc
  find?-All P p t (u ∷ us) a q = elim (Bool-cases (p u)) [
    | inl e ↦ subst P (ground arith) a.0
    | inr e ↦ find?-All P p t us a.1 (ground arith)
  ]

-- The calls of the scheduler, as data.
pub data Action (K C : Type 0) : Type 0 where
  arms : (now : ℕ) → (key : K) → (delay : ℤ) → (callback : C) → Action K C
  cancels : (key : K) → Action K C
  rounds : (now : ℕ) → Action K C

module _ {K C : Type 0} ⦃e : Eq K⦄ where
  pub idle-IsSound : IsSound (idle K C)
  idle-IsSound = record {
    counted = λ k. unfold get in refl;
    known = λ k. unfold get in refl;
    bounded = tt;
    distinct = tt;
    sorted = tt;
  }

  -- What holds after the first timer is released holds after a round.
  round_popped :
      (P : Scheduler K C → Type 0) (now : ℕ) (h : List (Timer K C)) (s : Scheduler K C)
      → ((t : Timer K C) (rest : List (Timer K C))
          → h ≡ t ∷ rest
          → P (release t.key (record s { heap = rest })))
      → After P (round now (record s { heap = h }))
  unfolding round
  round_popped P now [] s f = tt
  round_popped P now (t ∷ rest) s f = elim (Bool-cases (ltb now t.deadline)) [
    | inl early ↦ rw early tt
    | inr due ↦ rw due (elim (Bool-cases (is_live s.generations t)) [
      | inl live ↦ rw live (f t rest refl)
      | inr dead ↦ rw dead (f t rest refl)
    ])
  ]

  pub round-IsSound : (now : ℕ) (s : Scheduler K C) → IsSound s → After IsSound (round now s)
  round-IsSound now s v =
      round_popped IsSound now s.heap s
        (λ t rest q. release-IsSound t rest s (subst (λ h. IsSound (record s { heap = h })) q v))

  release-All :
      (P : Timer K C → Type 0) (key : K) (s : Scheduler K C)
      → All P s.heap
      → All P (release key s).heap
  unfolding release
  release-All P key s a = ground arith

  pub round-All :
      (P : Timer K C → Type 0) (now : ℕ) (s : Scheduler K C)
      → All P s.heap
      → After (λ (s' : Scheduler K C). All P s'.heap) (round now s)
  round-All P now s a =
      round_popped (λ (s' : Scheduler K C). All P s'.heap) now s.heap s
        (λ t rest q. release-All P t.key (record s { heap = rest }) (subst (All P) q a).1)

  abbrev pub rest_of : Scheduler K C → Round K C → Scheduler K C
  rest_of s waits = s
  rest_of s (drops s') = s'
  rest_of s (calls c s') = s'

  unfoldable pub perform : List (Action K C) → Scheduler K C → Scheduler K C
  perform [] s = s
  perform (arms now key delay callback ∷ actions) s = perform actions (arm now key delay callback s)
  perform (cancels key ∷ actions) s = perform actions (cancel key s)
  perform (rounds now ∷ actions) s = perform actions (rest_of s (round now s))

  rest_of-IsSound :
      (s : Scheduler K C) (r : Round K C) → IsSound s → After IsSound r → IsSound (rest_of s r)
  rest_of-IsSound s waits v a = v
  rest_of-IsSound s (drops s') v a = a
  rest_of-IsSound s (calls c s') v a = a

  perform-IsSound :
      (actions : List (Action K C)) (s : Scheduler K C) → IsSound s → IsSound (perform actions s)
  unfolding perform
  perform-IsSound [] s v = v
  perform-IsSound (arms now key delay callback ∷ actions) s v =
      perform-IsSound actions _ (arm-IsSound now key delay callback s v)
  perform-IsSound (cancels key ∷ actions) s v = perform-IsSound actions _ (cancel-IsSound key s v)
  perform-IsSound (rounds now ∷ actions) s v =
      perform-IsSound actions _ (rest_of-IsSound s _ v (round-IsSound now s v))

  -- After any calls on a new scheduler, the counts of outstanding timers, the generations and the order
  -- of the heap are right.
  pub perform-idle-IsSound : (actions : List (Action K C)) → IsSound (perform actions (idle K C))
  perform-idle-IsSound actions = perform-IsSound actions (idle K C) idle-IsSound

  -- Once the heap is empty after any calls, no key has a generation or a count left.
  pub perform-idle-freed :
      (actions : List (Action K C)) (k : K)
      → (perform actions (idle K C)).heap ≡ []
      → (get k (perform actions (idle K C)).generations ≡ none)
        × (get k (perform actions (idle K C)).outstanding ≡ none)
  perform-idle-freed actions k q =
      let v = perform-idle-IsSound actions in
      (no_entry _ (rw (v.known k, q) refl), rw (v.counted k, q) refl)
    where
      no_entry : (o : Option ℕ) → is_none o ≡ true → o ≡ none
      no_entry none x = refl
      no_entry (some n) x = absurd cc
