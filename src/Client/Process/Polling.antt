-- ===== src/Client/Process/Polling.antt =====
-- client.py: the looks at the daemon, one after another.
use sockpost.Common.{
  ℕ, zero, suc, ◌+◌, ◌≤◌, ◌<◌, ◌≡◌, ◌↔◌, inl, inr, refl, subst, Bool, true, false, not, arith,
  if◌then◌else◌, Bool-cases,
}
use sockpost.Client.Process.{polled}

-- One of the looks sees what is wanted.
abbrev pub IsSeen : (ℕ → Bool) → Bool → ℕ → ℕ → Type 0
IsSeen alive wanted polls i = (j : ℕ) × (j < polls) × (alive (i + j) ≡ wanted)

abbrev looks_right : (alive wanted : Bool) → Bool
looks_right alive wanted = if wanted then alive else not alive

looks_right_iff : (alive wanted : Bool) → (looks_right alive wanted ≡ true) ↔ (alive ≡ wanted)
looks_right_iff true true = ground arith
looks_right_iff true false = ground arith
looks_right_iff false true = ground arith
looks_right_iff false false = ground arith

later-IsSeen :
    (alive : ℕ → Bool) (wanted : Bool) (polls i : ℕ)
    → IsSeen alive wanted polls (suc i)
    → IsSeen alive wanted (suc polls) i
later-IsSeen alive wanted polls i (j, h, q) =
    (suc j, omega arith, subst (λ n. alive n ≡ wanted) (shift i j) q)
  where
    shift : (i j : ℕ) → suc i + j ≡ i + suc j
    shift i j = omega arith

pub polled-IsSeen :
    (alive : ℕ → Bool) (wanted : Bool) (polls i : ℕ)
    → (polled alive wanted polls i).0 ≡ true
    → IsSeen alive wanted polls i
unfolding polled
polled-IsSeen alive wanted zero i h = absurd cc
polled-IsSeen alive wanted (suc polls) i h = elim (Bool-cases (looks_right (alive i) wanted)) [
  | inl e ↦ (
    0,
    omega arith,
    subst (λ n. alive n ≡ wanted) (plus_zero i) ((looks_right_iff (alive i) wanted).0 e),
  )
  | inr e ↦ later-IsSeen alive wanted polls i (polled-IsSeen alive wanted polls (suc i) (rw e at h))
]
  where
    plus_zero : (i : ℕ) → i ≡ i + 0
    plus_zero i = omega arith

pub IsSeen-polled :
    (alive : ℕ → Bool) (wanted : Bool) (polls i : ℕ)
    → IsSeen alive wanted polls i
    → (polled alive wanted polls i).0 ≡ true
unfolding polled
IsSeen-polled alive wanted zero i (j, h, q) = absurd (omega arith)
IsSeen-polled alive wanted (suc polls) i (j, h, q) =
    elim (Bool-cases (looks_right (alive i) wanted)) [
      | inl e ↦ rw e refl
      | inr e ↦ rw e (IsSeen-polled alive wanted polls (suc i) (next j h q e))
    ]
  where
    here : alive (i + 0) ≡ wanted → looks_right (alive i) wanted ≡ true
    here r = (looks_right_iff (alive i) wanted).1 (subst (λ n. alive n ≡ wanted) (zero_plus i) r)
      where
        zero_plus : (i : ℕ) → i + 0 ≡ i
        zero_plus i = omega arith

    shift : (i k : ℕ) → i + suc k ≡ suc i + k
    shift i k = omega arith

    next :
        (j : ℕ)
        → j < suc polls
        → alive (i + j) ≡ wanted
        → looks_right (alive i) wanted ≡ false
        → IsSeen alive wanted polls (suc i)
    next zero h r e = absurd (clash (here r) e)
      where
        clash : {b : Bool} → b ≡ true → b ≡ false → ⊥
        clash p q = cc
    next (suc k) h r e = (k, omega arith, subst (λ n. alive n ≡ wanted) (shift i k) r)

-- No more naps than looks.
pub polled-naps :
    (alive : ℕ → Bool) (wanted : Bool) (polls i : ℕ) → (polled alive wanted polls i).1 ≤ polls
unfolding polled
polled-naps alive wanted zero i = omega arith
polled-naps alive wanted (suc polls) i = elim (Bool-cases (looks_right (alive i) wanted)) [
  | inl e ↦ rw e (omega arith)
  | inr e ↦ rw e (omega (arith, polled-naps alive wanted polls (suc i)))
]
