-- ===== src/System/Sends/Answers.antt =====
-- daemon.py, what `_handle_send` does for a request of `cmd_send`.
use sockpost.Common.{
  ℕ, if◌then◌else◌, ◌≡◌, refl, Bool, true, false, Option, none, some, Text, text_eq, text_instance,
  inl, inr, ◌⊎◌,
}
use sockpost.Common.Dict.{get}
use sockpost.Common.Result.{Result, ok, err, ◌>>=◌}
use sockpost.Python.Value.{text, Request, field_of, to_text}
use sockpost.Protocol.Channel.{validate_channel}
use sockpost.Store.Validity.{IsValid}
use sockpost.Daemon.Scheduler.Soundness.{IsSound}
use sockpost.Daemon.State.{
  key_instance, Daemon, Moment, Problem, queued, Settings, body_too_large, could_not_process,
  unicode_encode_error,
}
use sockpost.Daemon.Requests.{
  Mail, checked_send, handle_send, channel_field, within_limit, utf8_size, channel_or_problem,
  exceeds,
}
use sockpost.System.Answers.{Answered, Answered-reply, Answered-queue}
use sockpost.Client.Commands.{send_request}

-- The daemon's checks of the request pass, with the mail that was given, or fail with a problem.
abbrev pub CheckedOr : Result Problem Mail → Mail → Type 0
CheckedOr r mail = (r ≡ ok mail) ⊎ ((problem : Problem) × (r ≡ err problem))

pub checked_send-request :
    (settings : Settings) (s r b : Text)
    → validate_channel (text s) ≡ ok s
    → validate_channel (text r) ≡ ok r
    → CheckedOr
        (checked_send settings (send_request s r b))
        (record { sender = s; recipient = r; body = b })
unfolding checked_send channel_field channel_or_problem send_request field_of get text_eq to_text
    within_limit
checked_send-request settings s r b p q = rw (checked_send, p, q) (by_size (utf8_size b))
  where
    by_limit :
        (n : ℕ) (over : Bool)
        → CheckedOr
            ((if over then err (body_too_large n) else ok b)
              >>= (λ body. ok (record { sender = s; recipient = r; body = body })))
            (record { sender = s; recipient = r; body = b })
    by_limit n true = inr (body_too_large n, refl)
    by_limit n false = inl refl

    by_size :
        (size : Option ℕ)
        → CheckedOr
            (within_limit settings.max_body_bytes b size
              >>= (λ body. ok (record { sender = s; recipient = r; body = body })))
            (record { sender = s; recipient = r; body = b })
    by_size none = inr (could_not_process unicode_encode_error, refl)
    by_size (some n) = by_limit n (exceeds n settings.max_body_bytes)

-- What a send does for its caller.
pub Answered-send :
    (w : Moment) (conn : ℕ) (mail : Mail) (d : Daemon) (request : Request)
    → IsValid d.db
    → IsSound d.scheduler
    → CheckedOr (checked_send d.settings request) mail
    → Answered w conn queued mail d (handle_send w conn request d)
unfolding handle_send
Answered-send w conn mail d request v sound (inl checked) =
    rw (handle_send, checked) (Answered-queue w conn queued mail d v sound)
Answered-send w conn mail d request v sound (inr (problem, q)) =
    rw (handle_send, q) (Answered-reply w conn queued mail d problem)
