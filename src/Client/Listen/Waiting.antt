-- ===== src/Client/Listen/Waiting.antt =====
-- How long a listener sleeps between two attempts to reach the daemon, and how it ends.
use sockpost.Common.{
  ℕ, ◌≡◌, refl, Bool, true, false, ◌&&◌, List, [], ◌∷◌, arith, leb, ◌==◌, Text, all, all-append,
  if◌then◌else◌,
}
use sockpost.Python.Value.{Request}
use sockpost.Client.Settings.{ClientSettings}
use sockpost.Client.Exchange.{Line, blank_line, not_json, object}
use sockpost.Client.Events.{
  Kind, connected, message, wakeup, delivery_timeout, unreachable, evicted, error, ping_check,
  silent, kind_of,
}
use sockpost.Client.Listen.{
  Listener, Phase, opening, reading, returned, Happening, opens, cannot_open, reads, ends,
  interrupted, lose, next_backoff, try_write, auto_ack, ping_ack_request, answer, take_line,
  open_step, read_step, phase_step, listen_step, listen_steps, new_listener,
}

abbrev pub is_nap : ℕ → Bool
is_nap n = leb 1 n && leb n 30

abbrev ends_well : Phase → Bool
ends_well opening = true
ends_well reading = true
ends_well (returned code) = code == 0

-- Every sleep was between one second and half a minute, as the next one is; and the status is 0 if the
-- listener has returned.
pub record IsPatient (l : Listener) : Type 0 where
  pub next : is_nap l.backoff ≡ true
  pub slept : all is_nap l.naps ≡ true
  pub status : ends_well l.phase ≡ true

lose-IsPatient :
    (settings : ClientSettings) (l : Listener) → IsPatient l → IsPatient (lose settings l)
unfolding lose next_backoff
lose-IsPatient settings l p = record {
  next = ground (arith, p.next);
  slept = all-append is_nap l.naps (l.backoff ∷ []) p.slept (ground (arith, p.next));
  status = refl;
}

-- A change of what was printed, written or warned of.
same-IsPatient :
    (l k : Listener)
    → k.backoff ≡ l.backoff
    → k.naps ≡ l.naps
    → ends_well k.phase ≡ true
    → IsPatient l
    → IsPatient k
same-IsPatient l k b n e p = record { next = rw b p.next; slept = rw n p.slept; status = e }

module _ (settings : ClientSettings) (channel : Text) (manual_ack json : Bool) (l : Listener)
    (p : IsPatient l) where
  try_write-IsPatient :
      (takes : Bool) (request : Request) (k : Listener)
      → IsPatient k
      → IsPatient (try_write takes request k)
  unfolding try_write
  try_write-IsPatient true request k q = same-IsPatient k _ refl refl q.status q
  try_write-IsPatient false request k q = q

  answer-IsPatient :
      (obj : Request) (takes : Bool) (kind : Kind) (k : Listener)
      → IsPatient k
      → IsPatient (answer channel manual_ack obj takes kind k)
  unfolding answer
  answer-IsPatient obj takes message k q =
      elim (manual_ack)
        as (λ b. IsPatient (if b then k else try_write takes (auto_ack channel obj) k)) [
          | true ↦ q
          | false ↦ try_write-IsPatient takes (auto_ack channel obj) k q
        ]
  answer-IsPatient obj takes ping_check k q =
      try_write-IsPatient takes (ping_ack_request channel obj) k q
  answer-IsPatient obj takes evicted k q = same-IsPatient k _ refl refl refl q
  answer-IsPatient obj takes connected k q = q
  answer-IsPatient obj takes wakeup k q = q
  answer-IsPatient obj takes delivery_timeout k q = q
  answer-IsPatient obj takes unreachable k q = q
  answer-IsPatient obj takes error k q = q
  answer-IsPatient obj takes silent k q = q

  line-IsPatient :
      (next : Line) (takes : Bool) → IsPatient (take_line channel manual_ack json next takes l)
  unfolding take_line
  line-IsPatient blank_line takes = p
  line-IsPatient not_json takes = p
  line-IsPatient (object obj) takes =
      answer-IsPatient obj takes (kind_of obj) _ (same-IsPatient l _ refl refl p.status p)

  open-IsPatient : (h : Happening) → IsPatient (open_step settings channel h l)
  unfolding open_step
  open-IsPatient (opens true) = record { next = refl; slept = p.slept; status = refl }
  open-IsPatient (opens false) = lose-IsPatient settings l p
  open-IsPatient cannot_open = lose-IsPatient settings l p
  open-IsPatient interrupted = same-IsPatient l _ refl refl refl p
  open-IsPatient (reads next takes) = p
  open-IsPatient ends = p

  read-IsPatient : (h : Happening) → IsPatient (read_step settings channel manual_ack json h l)
  unfolding read_step
  read-IsPatient (reads next takes) = line-IsPatient next takes
  read-IsPatient ends = lose-IsPatient settings l p
  read-IsPatient interrupted = same-IsPatient l _ refl refl refl p
  read-IsPatient (opens takes) = p
  read-IsPatient cannot_open = p

  phase-IsPatient :
      (h : Happening) (phase : Phase)
      → IsPatient (phase_step settings channel manual_ack json h phase l)
  unfolding phase_step
  phase-IsPatient h opening = open-IsPatient h
  phase-IsPatient h reading = read-IsPatient h
  phase-IsPatient h (returned code) = p

steps-IsPatient :
    (settings : ClientSettings) (channel : Text) (manual_ack json : Bool) (hs : List Happening)
    (l : Listener)
    → IsPatient l
    → IsPatient (listen_steps settings channel manual_ack json hs l)
unfolding listen_steps listen_step
steps-IsPatient settings channel manual_ack json [] l p = p
steps-IsPatient settings channel manual_ack json (h ∷ hs) l p =
    steps-IsPatient settings channel manual_ack json hs _
      (phase-IsPatient settings channel manual_ack json l p h l.phase)

-- Whatever happens to a listener, each of its sleeps, before the jitter, is at least one second and at most
-- half a minute, as its next one is; and if it has returned, its status is 0.
pub listen_steps-IsPatient :
    (settings : ClientSettings) (channel : Text) (manual_ack json : Bool) (hs : List Happening)
    → IsPatient (listen_steps settings channel manual_ack json hs new_listener)
unfolding new_listener
listen_steps-IsPatient settings channel manual_ack json hs =
    steps-IsPatient settings channel manual_ack json hs _
      (record { next = refl; slept = refl; status = refl })
