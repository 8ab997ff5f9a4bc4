-- ===== src/System/Answers.antt =====
-- daemon.py, what a handler that queues a message does for its caller.
use sockpost.Common.{
  ℕ, suc, ◌≤◌, ◌≡◌, refl, false, [], ◌∷◌, ◌++◌, leb, arith, text_instance, Bool-cases, inl, inr,
}
use sockpost.Common.Result.{err}
use sockpost.Store.Tables.{max_rowid}
use sockpost.Store.Messages.{insert_message}
use sockpost.Store.Validity.{IsValid}
use sockpost.Daemon.Scheduler.Soundness.{IsSound}
use sockpost.Daemon.State.{
  key_instance, Daemon, Moment, Problem, Payload, error, reply, write_failed,
}
use sockpost.Daemon.Requests.{Mail, queue, insert}
use sockpost.Daemon.Routing.{IsStored, IsRouted, queue-IsRouted, queue-sent, queue-silent}

-- What such a handler does for its caller: nothing is written, or a problem, or the payload with the id of
-- what was stored.
pub data Answered (w : Moment) (conn : ℕ) (payload : ℕ → Payload) (mail : Mail)
    (before after : Daemon) : Type 0 where
  unheard : after.sent ≡ before.sent → Answered w conn payload mail before after
  told :
      (problem : Problem)
      → after.sent ≡ before.sent ++ (conn, error problem) ∷ []
      → Answered w conn payload mail before after
  stored :
      after.sent ≡ before.sent ++ (conn, payload (suc before.db.last_id)) ∷ []
      → IsStored w mail before.db after.db
      → IsRouted w (suc before.db.last_id) mail.sender mail.recipient before after
      → Answered w conn payload mail before after

module _ (w : Moment) (conn : ℕ) (payload : ℕ → Payload) (mail : Mail) (d : Daemon) where
  pub Answered-reply :
      (problem : Problem) → Answered w conn payload mail d (reply w conn (error problem) d)
  unfolding reply
  Answered-reply problem = elim (Bool-cases (w.takes conn)) [
    | inl e ↦ told problem (rw (reply, e) refl)
    | inr e ↦ unheard (rw (reply, e) refl)
  ]

  module _ (v : IsValid d.db) (sound : IsSound d.scheduler) where
    Answered-room :
        w.refuses ≡ false
        → suc d.db.last_id ≤ max_rowid
        → Answered w conn payload mail d (queue w conn payload mail d)
    Answered-room accepts room = elim (Bool-cases (w.takes conn)) [
      | inl e ↦
          let (is_stored, is_routed) =
            queue-IsRouted w conn mail payload d v room accepts sound e in
          stored (queue-sent w conn mail payload d v room accepts e) is_stored is_routed
      | inr e ↦ unheard (queue-silent w conn mail payload d v room accepts e)
    ]

    Answered-refused :
        insert w mail d.db ≡ err write_failed
        → Answered w conn payload mail d (queue w conn payload mail d)
    unfolding queue
    Answered-refused q = rw (queue, q) (Answered-reply write_failed)

    pub Answered-queue : Answered w conn payload mail d (queue w conn payload mail d)
    unfolding insert insert_message
    Answered-queue = elim (Bool-cases w.refuses) [
      | inl e ↦ Answered-refused (rw (insert, e) refl)
      | inr e ↦ elim (Bool-cases (leb (suc d.db.last_id) max_rowid)) [
        | inl f ↦ Answered-room e (ground arith)
        | inr f ↦ Answered-refused (rw (insert, e, insert_message, f) refl)
      ]
    ]
