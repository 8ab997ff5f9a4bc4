-- ===== src/System/Conclusions.antt =====
-- client.py, what a command makes of the daemon's writes.
use sockpost.Common.{
  ℕ, suc, arith, ◌≡◌, refl, true, false, [], ◌∷◌, Text, codes, text_eq, text_instance, drop, length,
  Bool-cases, inl, inr,
}
use sockpost.Common.Dict.{get}
use sockpost.Python.Value.{Request, field_of}
use sockpost.Daemon.State.{Daemon, Moment, Problem, Payload, error, reply}
use sockpost.Daemon.Requests.{Mail}
use sockpost.Daemon.Routing.{IsStored, IsRouted}
use sockpost.Daemon.Wire.{as_object}
use sockpost.Client.Settings.{ClientSettings, Complaint, Outcome}
use sockpost.Client.Exchange.{Ending, encodable, concluded, roundtrip, has_op}
use sockpost.Client.Exchange.Replies.{
  roundtrip-nothing, roundtrip-wanted, concluded-nothing, concluded-error, concluded-done,
}
use sockpost.System.{contact_of, lines_of, written_to, written-one, written-nothing}
use sockpost.System.Answers.{Answered, unheard, told, stored}

module _ (error_text : Problem → Text) (shown : Text) (ending : Ending) (settings : ClientSettings)
    (lost : Complaint) (refuse : Text → Complaint) (done : Request → Outcome) (request : Request)
    (expect : Text) (conn : ℕ) (before : Daemon) where
  -- What the client ends with once the daemon has gone to another state.
  abbrev pub ended : Daemon → Outcome
  ended after =
      concluded settings lost refuse done
        (roundtrip request expect (contact_of error_text shown ending conn before after))

  module _ (sendable : encodable request ≡ true) (after : Daemon) where
    pub ended-nothing :
        written_to conn (drop (length before.sent) after.sent) ≡ [] → (ended after).code ≡ 1
    unfolding contact_of lines_of
    ended-nothing q =
        rw (q, roundtrip-nothing request expect ending sendable)
          (concluded-nothing settings lost refuse done ending)

    pub ended-error :
        (problem : Problem)
        → written_to conn (drop (length before.sent) after.sent) ≡ error problem ∷ []
        → has_op expect (as_object error_text shown (error problem)) ≡ false
        → (ended after).code ≡ 1
    unfolding contact_of lines_of
    ended-error problem q other =
        let obj = as_object error_text shown (error problem) in
        rw
          (
            q,
            roundtrip-wanted request expect ending sendable obj
                (rw other (unfold has_op as_object field_of get text_eq in refl)),
            concluded-error settings lost refuse done obj
                (unfold has_op as_object field_of get text_eq in refl),
          )
          refl

    pub ended-done :
        (payload : Payload)
        → written_to conn (drop (length before.sent) after.sent) ≡ payload ∷ []
        → has_op expect (as_object error_text shown payload) ≡ true
        → has_op (codes "error") (as_object error_text shown payload) ≡ false
        → ended after ≡ done (as_object error_text shown payload)
    unfolding contact_of lines_of
    ended-done payload q wanted fine =
        let obj = as_object error_text shown payload in
        rw
          (
            q,
            roundtrip-wanted request expect ending sendable obj (rw wanted refl),
            concluded-done settings lost refuse done obj fine,
          )
          refl

  -- A problem that is the whole answer ends the command with status 1, read or not.
  pub ended-reply :
      (sendable : encodable request ≡ true) (w : Moment) (problem : Problem)
      → has_op expect (as_object error_text shown (error problem)) ≡ false
      → (ended (reply w conn (error problem) before)).code ≡ 1
  unfolding reply
  ended-reply sendable w problem other = elim (Bool-cases (w.takes conn)) [
    | inl e ↦
        ended-error sendable (reply w conn (error problem) before) problem
          (rw (reply, e) (written-one conn (error problem) before.sent)) other
    | inr e ↦
        ended-nothing sendable (reply w conn (error problem) before)
          (rw (reply, e) (written-nothing conn before.sent))
  ]

  -- A command that ends with status 0 has read the reply that was written after the handler's work.
  pub ended-replied :
      (sendable : encodable request ≡ true) (w : Moment) (payload : Payload) (after : Daemon)
      → after.sent ≡ before.sent
      → has_op expect (as_object error_text shown payload) ≡ true
      → has_op (codes "error") (as_object error_text shown payload) ≡ false
      → (ended (reply w conn payload after)).code ≡ 0
      → ended (reply w conn payload after) ≡ done (as_object error_text shown payload)
  unfolding reply
  ended-replied sendable w payload after q wanted fine h = elim (Bool-cases (w.takes conn)) [
    | inl e ↦
        ended-done sendable (reply w conn payload after) payload
          (rw (reply, e, q) (written-one conn payload before.sent)) wanted fine
    | inr e ↦ absurd (
        omega (
          arith,
          h,
          ended-nothing sendable (reply w conn payload after)
              (rw (reply, e, q) (written-nothing conn before.sent)),
        ))
  ]

  -- A command whose message is queued, and that ends with status 0, has read the id of what was stored.
  pub ended-IsStored :
      (sendable : encodable request ≡ true) (w : Moment) (payload : ℕ → Payload) (mail : Mail)
      (after : Daemon)
      → ((problem : Problem) → has_op expect (as_object error_text shown (error problem)) ≡ false)
      → ((id : ℕ) → has_op expect (as_object error_text shown (payload id)) ≡ true)
      → ((id : ℕ) → has_op (codes "error") (as_object error_text shown (payload id)) ≡ false)
      → Answered w conn payload mail before after
      → (ended after).code ≡ 0
      → (ended after ≡ done (as_object error_text shown (payload (suc before.db.last_id))))
        × IsStored w mail before.db after.db
        × IsRouted w (suc before.db.last_id) mail.sender mail.recipient before after
  ended-IsStored sendable w payload mail after other wanted fine (unheard q) h =
      absurd
        (omega (arith, h, ended-nothing sendable after (rw q (written-nothing conn before.sent))))
  ended-IsStored sendable w payload mail after other wanted fine (told problem q) h = absurd (
      omega (
        arith,
        h,
        ended-error sendable after problem (rw q (written-one conn (error problem) before.sent))
            (other problem),
      ))
  ended-IsStored sendable w payload mail after other wanted fine (stored q is_stored is_routed) h =
      (
        ended-done sendable after (payload (suc before.db.last_id))
            (rw q (written-one conn (payload (suc before.db.last_id)) before.sent))
            (wanted (suc before.db.last_id)) (fine (suc before.db.last_id)),
        is_stored,
        is_routed,
      )
