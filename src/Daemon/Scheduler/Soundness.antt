-- ===== src/Daemon/Scheduler/Soundness.antt =====
-- The invariant of the scheduler: the counts of outstanding timers are exact, a key has a generation
-- exactly while the heap names it, no timer is of a later generation than its key, no two timers of a key
-- are of one generation, and the heap is in order.
use sockpost.Common.{
  ℕ, zero, suc, ◌+◌, ◌-◌, ◌≤◌, ◌<◌, ◌≡◌, refl, Bool, true, false, ◌&&◌, List, [], ◌∷◌, Option, none,
  some, ltb, ◌==◌, arith, any, All, count, Bool-cases, inl, inr, Eq,
}
use sockpost.Common.Int.{ℤ}
use sockpost.Common.Dict.{Dict, get, put, remove, get-put, get-put_self, get-remove}
use sockpost.Daemon.Scheduler.{Timer, Scheduler, push, arm, bump, cancel, release, or_zero, armed}
use sockpost.Daemon.Scheduler.Heap.{count-push, any-push, All-push, All-map}

-- The entry of a count in a dict that keeps no zeros.
abbrev pub positive : ℕ → Option ℕ
positive zero = none
positive (suc n) = some (suc n)

abbrev pub AtMost : ℕ → Option ℕ → Type 0
AtMost n none = ⊥
AtMost n (some g) = n ≤ g

abbrev pub is_zero : ℕ → Bool
is_zero zero = true
is_zero (suc n) = false

abbrev pub is_none : Option ℕ → Bool
is_none none = true
is_none (some n) = false

module _ {K C : Type 0} where
  abbrev pub Sorted : List (Timer K C) → Type 0
  Sorted [] = Unit
  Sorted (t ∷ ts) = All (λ (u : Timer K C). t.deadline ≤ u.deadline) ts × Sorted ts

  Sorted-push : (t : Timer K C) (h : List (Timer K C)) → Sorted h → Sorted (push t h)
  unfolding push
  Sorted-push t [] s = (tt, tt)
  Sorted-push t (u ∷ us) s = elim (Bool-cases (ltb t.deadline u.deadline)) [
    | inl e ↦ rw e (
      (
        ground arith,
        All-map (λ v. u.deadline ≤ v.deadline) (λ v. t.deadline ≤ v.deadline) us
            (λ v l. ground arith) s.0,
      ),
      s,
    )
    | inr e ↦
        rw e (All-push (λ v. u.deadline ≤ v.deadline) t us (ground arith) s.0, Sorted-push t us s.1)
  ]

module _ {K C : Type 0} ⦃e : Eq K⦄ where
  abbrev pub has_key : K → Timer K C → Bool
  has_key k t = e.beq t.key k

  -- The number of timers in the heap that name a key.
  abbrev pub naming : K → List (Timer K C) → ℕ
  naming k = count (has_key k)

  abbrev pub same_timer : Timer K C → Timer K C → Bool
  same_timer t u = has_key t.key u && u.generation == t.generation

  abbrev pub Distinct : List (Timer K C) → Type 0
  Distinct [] = Unit
  Distinct (t ∷ ts) = (any (same_timer t) ts ≡ false) × Distinct ts

  abbrev pub Bounded : Dict K ℕ → List (Timer K C) → Type 0
  Bounded generations = All (λ (t : Timer K C). AtMost t.generation (get t.key generations))

  pub record IsSound (s : Scheduler K C) : Type 0 where
    pub counted : (k : K) → get k s.outstanding ≡ positive (naming k s.heap)
    pub known : (k : K) → is_none (get k s.generations) ≡ is_zero (naming k s.heap)
    pub bounded : Bounded s.generations s.heap
    pub distinct : Distinct s.heap
    pub sorted : Sorted s.heap

  Distinct-push :
      (t : Timer K C) (h : List (Timer K C))
      → any (same_timer t) h ≡ false
      → Distinct h
      → Distinct (push t h)
  unfolding push
  Distinct-push t [] x d = (refl, tt)
  Distinct-push t (u ∷ us) x d = elim (Bool-cases (ltb t.deadline u.deadline)) [
    | inl l ↦ rw l (x, d)
    | inr l ↦ rw l (
      ground (arith, any-push (same_timer u) t us, e.beq_iff u.key t.key, e.beq_iff t.key u.key),
      Distinct-push t us (ground arith) d.1,
    )
  ]

  -- A timer of a generation beyond that of its key is like none in the heap.
  new_timer :
      (g : Dict K ℕ) (t : Timer K C) (h : List (Timer K C))
      → or_zero (get t.key g) < t.generation
      → Bounded g h
      → any (same_timer t) h ≡ false
  new_timer g t [] l b = refl
  new_timer g t (u ∷ us) l b = ground (arith, e.beq_iff u.key t.key, new_timer g t us l b.1)

  -- A dict whose entries did not fall bounds what it bounded.
  Bounded-put :
      (key : K) (n : ℕ) (g : Dict K ℕ) (h : List (Timer K C))
      → or_zero (get key g) ≤ n
      → Bounded g h
      → Bounded (put key n g) h
  Bounded-put key n g [] l b = tt
  Bounded-put key n g (u ∷ us) l b = (one (get u.key g) refl b.0, Bounded-put key n g us l b.1)
    where
      one :
          (o : Option ℕ)
          → get u.key g ≡ o
          → AtMost u.generation (get u.key g)
          → AtMost u.generation (get u.key (put key n g))
      one o q a = rw (get-put key u.key n g) (ground (arith, e.beq_iff key u.key))

  pub arm-IsSound :
      (now : ℕ) (key : K) (delay : ℤ) (callback : C) (s : Scheduler K C)
      → IsSound s
      → IsSound (arm now key delay callback s)
  unfolding arm
  arm-IsSound now key delay callback s v =
      let t = armed now key delay callback s in
      record {
        counted = λ k.
            rw (get-put key k _ s.outstanding, count-push (has_key k) t s.heap)
              (ground (arith, v.counted k, v.counted key, e.beq_iff key k));
        known = λ k.
            rw (get-put key k _ s.generations, count-push (has_key k) t s.heap)
              (ground (arith, v.known k));
        bounded =
            All-push (λ (u : Timer K C). AtMost u.generation (get u.key (put key _ s.generations)))
              t s.heap (rw (get-put_self key _ s.generations) (omega arith))
              (Bounded-put key _ s.generations s.heap (omega arith) v.bounded);
        distinct =
            Distinct-push t s.heap (new_timer s.generations t s.heap (omega arith) v.bounded)
              v.distinct;
        sorted = Sorted-push t s.heap v.sorted;
      }

  bump-known :
      (key : K) (s : Scheduler K C) (o : Option ℕ)
      → get key s.generations ≡ o
      → IsSound s
      → IsSound (record s { generations = bump key o s.generations })
  unfolding bump
  bump-known key s none q v = v
  bump-known key s (some g) q v = record {
    counted = v.counted;
    known = λ k.
        rw (get-put key k (g + 1) s.generations)
          (ground (arith, v.known k, v.known key, e.beq_iff key k));
    bounded = Bounded-put key (g + 1) s.generations s.heap (rw q (omega arith)) v.bounded;
    distinct = v.distinct;
    sorted = v.sorted;
  }

  pub cancel-IsSound : (key : K) (s : Scheduler K C) → IsSound s → IsSound (cancel key s)
  unfolding cancel
  cancel-IsSound key s v = bump-known key s _ refl v

  Bounded-remove :
      (key : K) (g : Dict K ℕ) (h : List (Timer K C))
      → naming key h ≡ 0
      → Bounded g h
      → Bounded (remove key g) h
  Bounded-remove key g [] z b = tt
  Bounded-remove key g (u ∷ us) z b = elim (Bool-cases (has_key key u)) [
    | inl here ↦ absurd (ground arith)
    | inr there ↦ (
      rw (get-remove key u.key g) (ground (arith, e.beq_iff key u.key, e.beq_iff u.key key)),
      Bounded-remove key g us (ground arith) b.1,
    )
  ]

  -- Popping the first timer and releasing its key.
  pub release-IsSound :
      (t : Timer K C) (rest : List (Timer K C)) (s : Scheduler K C)
      → IsSound (record s { heap = t ∷ rest })
      → IsSound (release t.key (record s { heap = rest }))
  unfolding release
  release-IsSound t rest s v =
      let left : or_zero (get t.key s.outstanding) - 1 ≡ naming t.key rest =
        ground (arith, v.counted t.key, e.beq_iff t.key t.key) in
      elim (Bool-cases (ltb 0 (or_zero (get t.key s.outstanding) - 1))) [
        | inl more ↦ rw more (record {
          counted = λ k.
              rw (get-put t.key k _ s.outstanding) (ground (arith, v.counted k, e.beq_iff t.key k));
          known = λ k. ground (arith, v.known k, e.beq_iff t.key k);
          bounded = v.bounded.1;
          distinct = v.distinct.1;
          sorted = v.sorted.1;
        })
        | inr last ↦ rw last (record {
          counted = λ k.
              rw (get-remove t.key k s.outstanding)
                (ground (arith, v.counted k, e.beq_iff t.key k));
          known = λ k.
              rw (get-remove t.key k s.generations) (ground (arith, v.known k, e.beq_iff t.key k));
          bounded = Bounded-remove t.key s.generations rest (ground arith) v.bounded.1;
          distinct = v.distinct.1;
          sorted = v.sorted.1;
        })
      ]
