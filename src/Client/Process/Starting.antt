-- ===== src/Client/Process/Starting.antt =====
-- When a command finds or starts the daemon.
use sockpost.Common.{
  ℕ, ◌≤◌, ◌≡◌, ◌↔◌, ◌⊎◌, inl, inr, refl, Bool, true, false, not, ◌||◌, Option, none, some, arith,
  if◌then◌else◌,
}
use sockpost.Config.{socket_path_problem}
use sockpost.Client.Settings.{ClientSettings}
use sockpost.Client.Process.{
  polled, Fork, spawn_detached, Ensured, launched, started_daemon, has_no_problem, ensure_daemon,
}
use sockpost.Client.Process.Polling.{IsSeen, IsSeen-polled, polled-IsSeen, polled-naps}

-- How a command comes to a daemon that answers.
abbrev pub IsReached : ClientSettings → Fork → (ℕ → Bool) → Type 0
IsReached settings fork alive =
    (alive 0 ≡ true)
    ⊎ ((settings.autostart ≡ true)
        × (socket_path_problem settings.socket_path ≡ none)
        × (spawn_detached fork ≡ true)
        × IsSeen alive true 50 1)

launched_iff :
    (started : Bool) (poll : Bool × ℕ)
    → ((launched started poll).answers ≡ true) ↔ ((started ≡ true) × (poll.0 ≡ true))
unfolding launched
launched_iff true (answers, naps) = (λ e. (refl, e), λ (s, e). e)
launched_iff false (answers, naps) = (λ e. absurd cc, λ (s, e). absurd cc)

launched-naps : (started : Bool) (poll : Bool × ℕ) → poll.1 ≤ 50 → (launched started poll).naps ≤ 50
unfolding launched
launched-naps true (answers, naps) h = h
launched-naps false (answers, naps) h = omega arith

has_no_problem_iff : (o : Option ℕ) → (has_no_problem o ≡ true) ↔ (o ≡ none)
unfolding has_no_problem
has_no_problem_iff none = (λ e. refl, λ e. refl)
has_no_problem_iff (some n) = (λ e. absurd cc, λ e. absurd cc)

-- The guards of `ensure_daemon`.
guarded : (now autostart short : Bool) → Ensured → Ensured
guarded now autostart short started =
    if now
    then record { answers = true; started = false; naps = 0 }
    else if not autostart || not short
    then record { answers = false; started = false; naps = 0 }
    else started

guarded_iff :
    (now autostart short : Bool) (started : Ensured)
    → ((guarded now autostart short started).answers ≡ true)
      ↔ ((now ≡ true) ⊎ ((autostart ≡ true) × (short ≡ true) × (started.answers ≡ true)))
unfolding guarded
guarded_iff true autostart short started = (λ e. inl refl, λ s. refl)
guarded_iff false true true started = (λ e. inr (refl, refl, e), started_answers)
  where
    started_answers :
        (false ≡ true) ⊎ ((true ≡ true) × (true ≡ true) × (started.answers ≡ true))
        → started.answers ≡ true
    started_answers (inl q) = absurd cc
    started_answers (inr (a, b, c)) = c
guarded_iff false true false started = (λ e. absurd cc, too_long)
  where
    too_long :
        (false ≡ true) ⊎ ((true ≡ true) × (false ≡ true) × (started.answers ≡ true)) → false ≡ true
    too_long (inl q) = q
    too_long (inr (a, b, c)) = b
guarded_iff false false short started = (λ e. absurd cc, not_allowed)
  where
    not_allowed :
        (false ≡ true) ⊎ ((false ≡ true) × (short ≡ true) × (started.answers ≡ true)) → false ≡ true
    not_allowed (inl q) = q
    not_allowed (inr (a, b, c)) = a

guarded-naps :
    (now autostart short : Bool) (started : Ensured)
    → started.naps ≤ 50
    → (guarded now autostart short started).naps ≤ 50
unfolding guarded
guarded-naps true autostart short started h = omega arith
guarded-naps false true true started h = h
guarded-naps false true false started h = omega arith
guarded-naps false false short started h = omega arith

-- `ensure_daemon` naps at most 50 times, and says that the daemon answers exactly if it answered at once, or
-- autostart is on, the socket's path is short enough, the process was started, and one of the 50 looks that
-- follow finds the daemon.
pub ensure_daemon_iff :
    (settings : ClientSettings) (fork : Fork) (alive : ℕ → Bool)
    → ((ensure_daemon settings fork alive).naps ≤ 50)
      × (((ensure_daemon settings fork alive).answers ≡ true) ↔ IsReached settings fork alive)
unfolding ensure_daemon started_daemon guarded
ensure_daemon_iff settings fork alive =
    let short = has_no_problem (socket_path_problem settings.socket_path) in
    let launch = launched (spawn_detached fork) (polled alive true 50 1) in
    let (to, from) = guarded_iff (alive 0) settings.autostart short launch in
    (
      guarded-naps (alive 0) settings.autostart short launch (
          launched-naps (spawn_detached fork) (polled alive true 50 1)
            (polled-naps alive true 50 1)),
      (λ e. reached (to e), λ r. from (guards r)),
    )
  where
    short_enough : Bool
    short_enough = has_no_problem (socket_path_problem settings.socket_path)

    launch_now : Ensured
    launch_now = launched (spawn_detached fork) (polled alive true 50 1)

    Guards : Type 0
    Guards =
        (alive 0 ≡ true)
        ⊎ ((settings.autostart ≡ true) × (short_enough ≡ true) × (launch_now.answers ≡ true))

    reached : Guards → IsReached settings fork alive
    reached (inl q) = inl q
    reached (inr (a, b, c)) =
        let (started, seen) = (launched_iff (spawn_detached fork) (polled alive true 50 1)).0 c in
        inr (
          a,
          (has_no_problem_iff (socket_path_problem settings.socket_path)).0 b,
          started,
          polled-IsSeen alive true 50 1 seen,
        )

    guards : IsReached settings fork alive → Guards
    guards (inl q) = inl q
    guards (inr (a, b, started, seen)) = inr (
      a,
      (has_no_problem_iff (socket_path_problem settings.socket_path)).1 b,
      (launched_iff (spawn_detached fork) (polled alive true 50 1)).1
          (started, IsSeen-polled alive true 50 1 seen),
    )
