-- ===== src/Daemon/Scheduler.antt =====
-- daemon.py, class Scheduler: one heap of timers, addressed by keys. Time is a number of ticks of the event
-- loop's clock, a key is of any type with an equality, and a callback is what its owner takes it for.
pub mod Heap
pub mod Soundness
pub mod OneTimer
pub mod Rounds
use sockpost.Common.{
  ℕ, suc, ◌+◌, ◌-◌, Bool, true, false, List, [], ◌∷◌, Option, none, some, ltb, ◌==◌, if◌then◌else◌,
  Eq,
}
use sockpost.Common.Dict.{Dict, get, put, remove}
use sockpost.Common.Int.{ℤ, pos, negsuc}

-- max(0.0, float(delay))
abbrev pub waiting_time : ℤ → ℕ
waiting_time (pos n) = n
waiting_time (negsuc n) = 0

-- `dict.get(key, 0)`
abbrev pub or_zero : Option ℕ → ℕ
or_zero none = 0
or_zero (some n) = n

module _ (K C : Type 0) where
  pub record Timer : Type 0 where
    pub deadline : ℕ
    pub ordinal : ℕ
    pub key : K
    pub generation : ℕ
    pub callback : C

  -- `heap` is in the order in which `heapq` gives the timers out: by deadline, then by ordinal.
  pub record Scheduler : Type 0 where
    pub heap : List Timer
    pub generations : Dict K ℕ
    pub outstanding : Dict K ℕ
    pub next_ordinal : ℕ

-- What a round of `_run` comes to: it waits for the signal or the deadline, it drops a timer that is not
-- live, or it calls a callback. The second field is the state in which it is called.
pub data Round (K C : Type 0) : Type 0 where
  waits : Round K C
  drops : Scheduler K C → Round K C
  calls : C → Scheduler K C → Round K C

abbrev pub idle : (K C : Type 0) → Scheduler K C
idle K C = record { heap = []; generations = []; outstanding = []; next_ordinal = 0 }

module _ {K C : Type 0} where
  -- heapq.heappush of a timer with the greatest ordinal: it goes behind those with its deadline.
  unfoldable pub push : Timer K C → List (Timer K C) → List (Timer K C)
  push t [] = t ∷ []
  push t (u ∷ us) =
      let rest = push t us in if ltb t.deadline u.deadline then t ∷ u ∷ us else u ∷ rest

abbrev pub is_generation : ℕ → Option ℕ → Bool
is_generation n none = false
is_generation n (some g) = g == n

module _ {K : Type 0} ⦃e : Eq K⦄ where
  pub bump : K → Option ℕ → Dict K ℕ → Dict K ℕ
  bump key none generations = generations
  bump key (some generation) generations = put key (generation + 1) generations

module _ {K C : Type 0} ⦃e : Eq K⦄ where
  -- The timer that `arm` pushes.
  abbrev pub armed : ℕ → K → ℤ → C → Scheduler K C → Timer K C
  armed now key delay callback s = record {
    deadline = now + waiting_time delay;
    ordinal = s.next_ordinal;
    key = key;
    generation = or_zero (get key s.generations) + 1;
    callback = callback;
  }

  unfoldable pub arm : ℕ → K → ℤ → C → Scheduler K C → Scheduler K C
  arm now key delay callback s = record {
    heap = push (armed now key delay callback s) s.heap;
    generations = put key (or_zero (get key s.generations) + 1) s.generations;
    outstanding = put key (or_zero (get key s.outstanding) + 1) s.outstanding;
    next_ordinal = s.next_ordinal + 1;
  }

  unfoldable pub cancel : K → Scheduler K C → Scheduler K C
  unfolding bump
  cancel key s = record s { generations = bump key (get key s.generations) s.generations }

  -- `_release`: `remaining` may be 0 or less only where nothing was outstanding.
  unfoldable pub release : K → Scheduler K C → Scheduler K C
  release key s =
      let remaining = or_zero (get key s.outstanding) - 1 in
      if ltb 0 remaining
      then record s { outstanding = put key remaining s.outstanding }
      else record s {
        outstanding = remove key s.outstanding;
        generations = remove key s.generations;
      }

  -- `self._generation.get(key) == generation`
  abbrev pub is_live : Dict K ℕ → Timer K C → Bool
  is_live generations t = is_generation t.generation (get t.key generations)

  unfoldable pub round : ℕ → Scheduler K C → Round K C
  unfolding release
  round now s = elim s.heap [
    | [] ↦ waits
    | t ∷ rest ↦
        if ltb now t.deadline
        then waits
        else if is_live s.generations t
        then calls t.callback (release t.key (record s { heap = rest }))
        else drops (release t.key (record s { heap = rest }))
  ]
