-- ===== src/Daemon/Scheduler/OneTimer.antt =====
-- What the heap, the generations and the counts come to: at most one timer for each key.
use sockpost.Common.{
  ℕ, ◌+◌, ◌-◌, ◌≤◌, ◌<◌, ◌≡◌, refl, Bool, true, false, ◌&&◌, List, [], ◌∷◌, Option, none, some, ltb,
  if◌then◌else◌, arith, any, All, find?, Bool-cases, inl, inr, Eq, ◌∙◌, sym, subst,
}
use sockpost.Common.Int.{ℤ}
use sockpost.Common.Dict.{Dict, get, put, remove, get-put, get-put_self, get-remove}
use sockpost.Daemon.Scheduler.{
  Timer, Scheduler, Round, waits, drops, calls, arm, bump, cancel, release, round, or_zero, is_live,
  is_generation, armed,
}
use sockpost.Daemon.Scheduler.Heap.{find?-push, find?-none, find?-agree, All-map}
use sockpost.Daemon.Scheduler.Soundness.{IsSound, Bounded, has_key, same_timer, naming}

module _ {K C : Type 0} ⦃e : Eq K⦄ where
  -- The timer of a key that will call, if there is one.
  abbrev pub is_pending : K → Dict K ℕ → Timer K C → Bool
  is_pending k generations t = has_key k t && is_live generations t

  unfoldable pub pending : K → Scheduler K C → Option (Timer K C)
  pending k s = find? (is_pending k s.generations) s.heap

  -- A new generation ends the timers of its key.
  ended :
      (key : K) (n : ℕ) (g : Dict K ℕ) (h : List (Timer K C))
      → or_zero (get key g) < n
      → Bounded g h
      → any (is_pending key (put key n g)) h ≡ false
  ended key n g [] l b = refl
  ended key n g (u ∷ us) l b = ground (
    arith,
    get-put key u.key n g,
    e.beq_iff u.key key,
    e.beq_iff key u.key,
    ended key n g us l b.1,
  )

  -- Timers of another key do not notice.
  apart_put :
      (k key : K) (n : ℕ) (g : Dict K ℕ) (h : List (Timer K C))
      → e.beq key k ≡ false
      → All (λ (u : Timer K C). is_pending k (put key n g) u ≡ is_pending k g u) h
  apart_put k key n g [] d = tt
  apart_put k key n g (u ∷ us) d = (
    ground (arith, get-put key u.key n g, e.beq_iff u.key k, e.beq_iff key u.key, e.beq_iff key k),
    apart_put k key n g us d,
  )

  apart_remove :
      (k key : K) (g : Dict K ℕ) (h : List (Timer K C))
      → e.beq key k ≡ false
      → All (λ (u : Timer K C). is_pending k (remove key g) u ≡ is_pending k g u) h
  apart_remove k key g [] d = tt
  apart_remove k key g (u ∷ us) d = (
    ground (arith, get-remove key u.key g, e.beq_iff u.key k, e.beq_iff key u.key, e.beq_iff key k),
    apart_remove k key g us d,
  )

  -- In a sound scheduler, arming a key replaces its timer, whatever it had before, and touches no
  -- other key's.
  pub pending-arm :
      (now : ℕ) (key k : K) (delay : ℤ) (callback : C) (s : Scheduler K C)
      → IsSound s
      → pending k (arm now key delay callback s)
        ≡ (if e.beq key k then some (armed now key delay callback s) else pending k s)
  unfolding pending arm
  pending-arm now key k delay callback s v =
      let t = armed now key delay callback s in
      let g : Dict K ℕ = put key (or_zero (get key s.generations) + 1) s.generations in
      elim (Bool-cases (e.beq key k)) [
        | inl same ↦
            let q : key ≡ k = (e.beq_iff key k).0 same in
            let none_left : any (is_pending k g) s.heap ≡ false =
              subst (λ j. any (is_pending j g) s.heap ≡ false) q
                (ended key _ s.generations s.heap (omega arith) v.bounded) in
            rw (same, find?-push (is_pending k g) t s.heap (rw none_left))
              (rw (same, get-put_self key (or_zero (get key s.generations) + 1) s.generations)
                (ground arith))
        | inr other ↦
            let no_match : (any (is_pending k g) s.heap && is_pending k g t) ≡ false =
              ground arith in
            rw (other, find?-push (is_pending k g) t s.heap no_match)
              (rw other (find?-agree _ _ s.heap (apart_put k key _ s.generations s.heap other)))
      ]

  absent :
      (key : K) (g : Dict K ℕ) (h : List (Timer K C))
      → get key g ≡ none
      → any (is_pending key g) h ≡ false
  absent key g [] q = refl
  absent key g (u ∷ us) q = ground (arith, e.beq_iff u.key key, absent key g us q)

  bump-pending :
      (key k : K) (o : Option ℕ) (s : Scheduler K C)
      → get key s.generations ≡ o
      → IsSound s
      → find? (is_pending k (bump key o s.generations)) s.heap
        ≡ (if e.beq key k then none else find? (is_pending k s.generations) s.heap)
  unfolding bump
  bump-pending key k none s q v = elim (Bool-cases (e.beq key k)) [
    | inl same ↦ rw same (
        find?-none _ s.heap (
          subst (λ j. any (is_pending j s.generations) s.heap ≡ false) ((e.beq_iff key k).0 same)
            (absent key s.generations s.heap q)))
    | inr other ↦ rw other
  ]
  bump-pending key k (some n) s q v = elim (Bool-cases (e.beq key k)) [
    | inl same ↦ rw same (
        find?-none _ s.heap (
          subst (λ j. any (is_pending j (put key (n + 1) s.generations)) s.heap ≡ false)
            ((e.beq_iff key k).0 same)
            (ended key (n + 1) s.generations s.heap (rw q (omega arith)) v.bounded)))
    | inr other ↦
        rw other (find?-agree _ _ s.heap (apart_put k key (n + 1) s.generations s.heap other))
  ]

  -- In a sound scheduler, cancelling a key ends its timer, if it has one, and touches no other
  -- key's.
  pub pending-cancel :
      (key k : K) (s : Scheduler K C)
      → IsSound s
      → pending k (cancel key s) ≡ (if e.beq key k then none else pending k s)
  unfolding pending cancel
  pending-cancel key k s v = bump-pending key k _ s refl v

  -- No timer of a heap in which nothing names the key.
  unnamed :
      (k : K) (g : Dict K ℕ) (h : List (Timer K C))
      → naming k h ≡ 0
      → any (is_pending k g) h ≡ false
  unnamed k g [] z = refl
  unnamed k g (u ∷ us) z = ground (arith, unnamed k g us)

  -- Releasing the key of the popped timer changes no timer that is left.
  release-pending :
      (k : K) (t : Timer K C) (rest : List (Timer K C)) (s : Scheduler K C)
      → IsSound (record s { heap = t ∷ rest })
      → pending k (release t.key (record s { heap = rest }))
        ≡ find? (is_pending k s.generations) rest
  unfolding pending release
  release-pending k t rest s v =
      let left : or_zero (get t.key s.outstanding) - 1 ≡ naming t.key rest =
        ground (arith, v.counted t.key, e.beq_iff t.key t.key) in
      elim (Bool-cases (ltb 0 (or_zero (get t.key s.outstanding) - 1))) [
        | inl more ↦ rw more
        | inr last ↦ rw last (elim (Bool-cases (e.beq t.key k)) [
          | inl same ↦
              let q : t.key ≡ k = (e.beq_iff t.key k).0 same in
              let z : naming k rest ≡ 0 = rw (← q) (ground arith) in
              find?-none _ rest (unnamed k (remove t.key s.generations) rest z)
              ∙ sym (find?-none _ rest (unnamed k s.generations rest z))
          | inr other ↦ find?-agree _ _ rest (apart_remove k t.key s.generations rest other)
        ])
      ]

  -- No timer behind a live one is live for the same key.
  alone :
      (t : Timer K C) (g : Dict K ℕ) (h : List (Timer K C))
      → is_live g t ≡ true
      → any (same_timer t) h ≡ false
      → any (is_pending t.key g) h ≡ false
  alone t g [] l d = refl
  alone t g (u ∷ us) l d = ground (
    arith,
    e.beq_iff u.key t.key,
    is_generation_eq t.generation u.generation (get t.key g),
    alone t g us l,
  )
    where
      is_generation_eq :
          (m n : ℕ) (o : Option ℕ) → is_generation m o ≡ true → is_generation n o ≡ true → n ≡ m
      is_generation_eq m n none a b = cc
      is_generation_eq m n (some i) a b = ground arith

  -- What a round does, by its outcome.
  abbrev pub Outcome : ℕ → Scheduler K C → Round K C → Type 0
  Outcome now s waits = All (λ (t : Timer K C). now < t.deadline) s.heap
  Outcome now s (drops s') = (k : K) → pending k s' ≡ pending k s
  Outcome now s (calls c s') =
      (t : Timer K C) × (t.callback ≡ c)
      × (pending t.key s ≡ some t)
      × (t.deadline ≤ now)
      × All (λ (u : Timer K C). t.deadline ≤ u.deadline) s'.heap
      × ((k : K) → pending k s' ≡ (if e.beq t.key k then none else pending k s))

  heap-release : (key : K) (s : Scheduler K C) → (release key s).heap ≡ s.heap
  unfolding release
  heap-release key s = ground arith

  module _ (t : Timer K C) (rest : List (Timer K C)) (s : Scheduler K C)
      (v : IsSound (record s { heap = t ∷ rest })) where
    popped_dead :
        (k : K)
        → is_live s.generations t ≡ false
        → pending k (release t.key (record s { heap = rest }))
          ≡ pending k (record s { heap = t ∷ rest })
    popped_dead k dead = release-pending k t rest s v ∙ unfold pending in ground arith

    popped_live :
        (k : K)
        → is_live s.generations t ≡ true
        → pending k (release t.key (record s { heap = rest }))
          ≡ (if e.beq t.key k then none else pending k (record s { heap = t ∷ rest }))
    unfolding pending
    popped_live k live = elim (Bool-cases (e.beq t.key k)) [
      | inl same ↦
          let gone : any (is_pending k s.generations) rest ≡ false =
            subst (λ j. any (is_pending j s.generations) rest ≡ false) ((e.beq_iff t.key k).0 same)
              (alone t s.generations rest live v.distinct.0) in
          rw same (release-pending k t rest s v ∙ find?-none _ rest gone)
      | inr other ↦ rw other (release-pending k t rest s v)
    ]

    first_pending :
        is_live s.generations t ≡ true → pending t.key (record s { heap = t ∷ rest }) ≡ some t
    unfolding pending
    first_pending live = ground (arith, e.beq_iff t.key t.key)

  outcome :
      (now : ℕ) (h : List (Timer K C)) (s : Scheduler K C)
      → IsSound (record s { heap = h })
      → Outcome now (record s { heap = h }) (round now (record s { heap = h }))
  unfolding round
  outcome now [] s v = tt
  outcome now (t ∷ rest) s v = elim (Bool-cases (ltb now t.deadline)) [
    | inl early ↦ rw early (
      ground arith,
      All-map (λ u. t.deadline ≤ u.deadline) (λ u. now < u.deadline) rest (λ u l. ground arith)
          v.sorted.0,
    )
    | inr due ↦ rw due (elim (Bool-cases (is_live s.generations t)) [
      | inl live ↦ rw live (
        t,
        refl,
        first_pending t rest s v live,
        ground arith,
        rw (heap-release t.key (record s { heap = rest })) v.sorted.0,
        λ k. popped_live t rest s v k live,
      )
      | inr dead ↦ rw dead (λ k. popped_dead t rest s v k dead)
    ])
  ]

  -- In a sound scheduler, a round waits only while every deadline is ahead. A callback that it makes
  -- is that of its key's one timer, which is due, and no timer left is due earlier; that key then
  -- has no timer. A round that drops a heap entry changes no key's timer. No timer of another key is
  -- touched.
  pub round-Outcome : (now : ℕ) (s : Scheduler K C) → IsSound s → Outcome now s (round now s)
  round-Outcome now s v = outcome now s.heap s v
