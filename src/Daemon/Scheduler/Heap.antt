-- ===== src/Daemon/Scheduler/Heap.antt =====
-- The heap as a collection: what a push adds, under tests, counts and searches.
use sockpost.Common.{
  ◌≡◌, refl, Bool, false, ◌&&◌, ◌||◌, List, [], ◌∷◌, none, ltb, arith, any, All, count, find?,
  Bool-cases, inl, inr,
}
use sockpost.Daemon.Scheduler.{Timer, push}

module _ {K C : Type 0} where
  pub count-push :
      (p : Timer K C → Bool) (t : Timer K C) (h : List (Timer K C))
      → count p (push t h) ≡ count p (t ∷ h)
  unfolding push
  count-push p t [] = refl
  count-push p t (u ∷ us) = ground (arith, count-push p t us)

  pub any-push :
      (p : Timer K C → Bool) (t : Timer K C) (h : List (Timer K C))
      → any p (push t h) ≡ (p t || any p h)
  unfolding push
  any-push p t [] = refl
  any-push p t (u ∷ us) = ground (arith, any-push p t us)

  pub All-push :
      (P : Timer K C → Type 0) (t : Timer K C) (h : List (Timer K C))
      → P t
      → All P h
      → All P (push t h)
  unfolding push
  All-push P t [] x a = (x, tt)
  All-push P t (u ∷ us) x a = elim (Bool-cases (ltb t.deadline u.deadline)) [
    | inl e ↦ rw e (x, a)
    | inr e ↦ rw e (a.0, All-push P t us x a.1)
  ]

  -- Where nothing in the heap passes the test, or the new timer does not, a search finds what it would
  -- find with the new timer in front.
  pub find?-push :
      (p : Timer K C → Bool) (t : Timer K C) (h : List (Timer K C))
      → (any p h && p t) ≡ false
      → find? p (push t h) ≡ find? p (t ∷ h)
  unfolding push
  find?-push p t [] x = refl
  find?-push p t (u ∷ us) x = ground (arith, find?-push p t us)

  pub find?-none :
      (p : Timer K C → Bool) (h : List (Timer K C)) → any p h ≡ false → find? p h ≡ none
  find?-none p [] x = refl
  find?-none p (u ∷ us) x = ground (arith, find?-none p us)

  -- Tests that agree on the heap find the same there.
  pub find?-agree :
      (p q : Timer K C → Bool) (h : List (Timer K C))
      → All (λ t. p t ≡ q t) h
      → find? p h ≡ find? q h
  find?-agree p q [] a = refl
  find?-agree p q (u ∷ us) a = ground (arith, find?-agree p q us a.1)

  pub All-map :
      (P Q : Timer K C → Type 0) (h : List (Timer K C))
      → ((t : Timer K C) → P t → Q t)
      → All P h
      → All Q h
  All-map P Q [] f a = tt
  All-map P Q (u ∷ us) f a = (f u a.0, All-map P Q us f a.1)
