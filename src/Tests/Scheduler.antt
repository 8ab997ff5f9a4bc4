-- ===== src/Tests/Scheduler.antt =====
-- The scheduler of daemon.py on concrete inputs.
use sockpost.Common.{ℕ, ◌≡◌, refl, ◌∷◌, [], List, none, some, nat_eq, if◌then◌else◌, ◌==◌}
use sockpost.Common.Int.{pos}
use sockpost.Common.Dict.{get, put, remove}
use sockpost.Daemon.Scheduler.{Scheduler, arm, armed, cancel, round, release, push, idle}
use sockpost.Daemon.Scheduler.Soundness.{IsSound}
use sockpost.Daemon.Scheduler.OneTimer.{
  pending, pending-arm, pending-cancel, Outcome, round-Outcome,
}
use sockpost.Daemon.Scheduler.Rounds.{
  Action, arms, cancels, rounds, perform, perform-idle-IsSound, perform-idle-freed,
}

-- Key 1 is armed twice, key 2 is armed and cancelled.
abbrev actions : List (Action ℕ ℕ)
actions = arms 0 1 (pos 9) 70 ∷ arms 1 2 (pos 3) 80 ∷ cancels 2 ∷ arms 2 1 (pos 3) 90 ∷ []

abbrev drained : List (Action ℕ ℕ)
drained = arms 0 1 (pos 9) 70 ∷ arms 2 1 (pos 3) 90 ∷ rounds 5 ∷ rounds 9 ∷ []

scheduler : Scheduler ℕ ℕ
scheduler = perform actions (idle ℕ ℕ)

scheduler-IsSound : IsSound scheduler
unfolding scheduler
scheduler-IsSound = perform-idle-IsSound actions

round-Outcome_example : Outcome 6 scheduler (round 6 scheduler)
round-Outcome_example = round-Outcome 6 scheduler scheduler-IsSound

pending-arm_example :
    pending 2 (arm 6 1 (pos 5) 60 scheduler)
    ≡ (if 1 == 2 then some (armed 6 1 (pos 5) 60 scheduler) else pending 2 scheduler)
pending-arm_example = pending-arm 6 1 2 (pos 5) 60 scheduler scheduler-IsSound

pending-cancel_example :
    pending 1 (cancel 1 scheduler) ≡ (if 1 == 1 then none else pending 1 scheduler)
pending-cancel_example = pending-cancel 1 1 scheduler scheduler-IsSound

nothing_left : (perform drained (idle ℕ ℕ)).heap ≡ []
unfolding perform arm push cancel round release get put remove
nothing_left = refl

perform-idle-freed_example :
    (get 1 (perform drained (idle ℕ ℕ)).generations ≡ none)
    × (get 1 (perform drained (idle ℕ ℕ)).outstanding ≡ none)
perform-idle-freed_example = perform-idle-freed drained 1 nothing_left
