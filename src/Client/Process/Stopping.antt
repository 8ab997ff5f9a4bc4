-- ===== src/Client/Process/Stopping.antt =====
-- When `sockpost stop` succeeds.
use sockpost.Common.{
  ℕ, zero, suc, ◌≡◌, ◌≢◌, ◌↔◌, [], ◌∷◌, Text, subst, ◌>>=◌, ◌==◌, ◌⊎◌, inl, inr, refl, Bool, true,
  false, Option, none, some, arith,
}
use sockpost.Common.Int.{ℤ, pos, negsuc}
use sockpost.Python.Space.{strip}
use sockpost.Python.Decimal.{int_text, digit}
use sockpost.Client.Process.{
  PidFile, absent, unopened, unlocked, locked, positive_pid, or_zero_text, running_daemon_pid, Kill,
  signalled, no_process, forbidden, stopped, stop_signalled, stop_pid, cmd_stop,
}
use sockpost.Client.Process.Polling.{IsSeen, IsSeen-polled, polled-IsSeen}

-- The pid file names no daemon: it is missing or cannot be opened, nobody holds its lock, or its content is no
-- text or no positive number.
abbrev pub NamesNobody : PidFile → Type 0
NamesNobody file =
    (file ≡ absent)
    ⊎ (file ≡ unopened)
    ⊎ (file ≡ unlocked)
    ⊎ (file ≡ locked none)
    ⊎ ((content : Text) × (file ≡ locked (some content))
        × ((pid : ℕ) → int_text (strip content) ≢ some (pos (suc pid))))

positive_pid-suc :
    (o : Option ℤ) → ((o >>= positive_pid) ≡ none) ↔ ((pid : ℕ) → o ≢ some (pos (suc pid)))
unfolding positive_pid
positive_pid-suc none = (λ e pid. (λ q. cc), λ h. refl)
positive_pid-suc (some (pos zero)) = (λ e pid. (λ q. cc), λ h. refl)
positive_pid-suc (some (pos (suc n))) = (
  λ e. let positive : (suc n == 0) ≡ false = ground arith in absurd (found (rw positive at e)),
  λ h. absurd (h n refl),
)
  where
    found : some (suc n) ≡ none → ⊥
    found q = cc
positive_pid-suc (some (negsuc n)) = (λ e pid. (λ q. cc), λ h. refl)

running_daemon_pid-NamesNobody :
    (file : PidFile) → (running_daemon_pid file ≡ none) ↔ NamesNobody file
unfolding running_daemon_pid or_zero_text
running_daemon_pid-NamesNobody absent = (λ e. inl refl, λ h. refl)
running_daemon_pid-NamesNobody unopened = (λ e. inr (inl refl), λ h. refl)
running_daemon_pid-NamesNobody unlocked = (λ e. inr (inr (inl refl)), λ h. refl)
running_daemon_pid-NamesNobody (locked none) = (λ e. inr (inr (inr (inl refl))), λ h. refl)
running_daemon_pid-NamesNobody (locked (some [])) = (
  λ e. inr (inr (inr (inr ([], refl, unfold strip int_text in λ pid q. cc)))),
  λ h. unfold strip int_text positive_pid digit in refl,
)
running_daemon_pid-NamesNobody (locked (some (c ∷ s))) = (
  λ e. inr (inr (inr (inr (c ∷ s, refl, (positive_pid-suc (int_text (strip (c ∷ s)))).0 e)))),
  named,
)
  where
    named : NamesNobody (locked (some (c ∷ s))) → (int_text (strip (c ∷ s)) >>= positive_pid) ≡ none
    named (inl q) = absurd cc
    named (inr (inl q)) = absurd cc
    named (inr (inr (inl q))) = absurd cc
    named (inr (inr (inr (inl q)))) = absurd cc
    named (inr (inr (inr (inr (content, q, h))))) =
        let same : content ≡ c ∷ s = cc in
        (positive_pid-suc (int_text (strip (c ∷ s)))).1
          (subst (λ t. (pid : ℕ) → int_text (strip t) ≢ some (pos (suc pid))) same h)

-- What a successful stop has met.
abbrev pub IsStopped : PidFile → Kill → (ℕ → Bool) → Type 0
IsStopped file kill alive =
    NamesNobody file ⊎ (kill ≡ no_process) ⊎ ((kill ≡ signalled) × IsSeen alive false 50 0)

stopped_iff : (pid : ℕ) (seen : Bool) → ((stopped pid seen).code ≡ 0) ↔ (seen ≡ true)
unfolding stopped
stopped_iff pid true = (λ e. refl, λ e. refl)
stopped_iff pid false = (λ e. absurd (omega (arith, e)), λ e. absurd cc)

-- `sockpost stop` ends with status 0 exactly if the pid file is missing or cannot be opened, nobody holds its lock, or
-- it has no positive number in it; or the process it names is gone; or that process could be signalled and one of
-- the 50 looks that follow does not find the daemon.
pub cmd_stop_iff :
    (file : PidFile) (kill : Kill) (alive : ℕ → Bool)
    → ((cmd_stop file kill alive).code ≡ 0) ↔ IsStopped file kill alive
unfolding cmd_stop
cmd_stop_iff file kill alive =
    let (met, stops) = by_pid (running_daemon_pid file) kill in
    let (nobody, none_running) = running_daemon_pid-NamesNobody file in
    (λ e. first nobody (met e), λ s. stops (first none_running s))
  where
    first : {A B C : Type 0} → (A → B) → A ⊎ C → B ⊎ C
    first f (inl a) = inl (f a)
    first f (inr c) = inr c

    failed : {A : Type 0} → suc 0 ≡ 0 → A
    failed e = absurd (omega arith)

    no_way :
        {pid : ℕ}
        → (some pid ≡ none)
          ⊎ (forbidden ≡ no_process)
          ⊎ ((forbidden ≡ signalled) × IsSeen alive false 50 0)
        → suc 0 ≡ 0
    no_way (inl q) = absurd cc
    no_way (inr (inl q)) = absurd cc
    no_way (inr (inr (q, s))) = absurd cc

    by_pid :
        (pid : Option ℕ) (kill : Kill)
        → ((stop_pid pid kill alive).code ≡ 0)
          ↔ ((pid ≡ none) ⊎ (kill ≡ no_process) ⊎ ((kill ≡ signalled) × IsSeen alive false 50 0))
    by_pid none kill = unfold stop_pid in (λ e. inl refl, λ s. refl)
    by_pid (some pid) no_process =
        unfold stop_pid stop_signalled in (λ e. inr (inl refl), λ s. refl)
    by_pid (some pid) forbidden = unfold stop_pid stop_signalled in (failed, no_way)
    by_pid (some pid) signalled =
        unfold stop_pid stop_signalled in
        (
          λ e. inr (inr (refl, polled-IsSeen alive false 50 0 ((stopped_iff pid _).0 e))),
          λ s. (stopped_iff pid _).1 (IsSeen-polled alive false 50 0 (seen s)),
        )
      where
        seen :
            (some pid ≡ none)
              ⊎ (signalled ≡ no_process)
              ⊎ ((signalled ≡ signalled) × IsSeen alive false 50 0)
            → IsSeen alive false 50 0
        seen (inl q) = absurd cc
        seen (inr (inl q)) = absurd cc
        seen (inr (inr (q, s))) = s
