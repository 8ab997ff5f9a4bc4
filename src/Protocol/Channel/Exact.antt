-- ===== src/Protocol/Channel/Exact.antt =====
-- Exactly which values `validate_channel` accepts, and what an accepted id can hold.
use sockpost.Common.{
  ℕ, ◌≡◌, ◌≢◌, ◌↔◌, refl, sym, Bool, true, false, not, ◌||◌, [], ◌∷◌, arith, ◌==◌, Text, all, any,
}
use sockpost.Common.Result.{ok}
use sockpost.Python.Space.{is_space, strip, strip_none, strip-ends}
use sockpost.Python.Value.{Value, null, text, to_text}
use sockpost.Protocol.Channel.{
  is_channel_char, check_channel, validate_channel, IsChannel, channel_re_complete,
  check_channel_sound,
}

validate_channel_sound :
    (v : Value) (t : Text)
    → validate_channel v ≡ ok t
    → (v ≢ null) × (t ≡ strip (to_text v)) × IsChannel t
unfolding validate_channel
validate_channel_sound null t h = cc
validate_channel_sound v t h =
    let (e, c) = check_channel_sound (strip (to_text v)) t (strip-ends (to_text v)) h in
    (cc, sym e, c)

validate_channel_complete :
    (v : Value) (t : Text)
    → (v ≢ null) × (t ≡ strip (to_text v)) × IsChannel t
    → validate_channel v ≡ ok t
unfolding validate_channel check_channel
validate_channel_complete null t h = absurd (h.0 refl)
validate_channel_complete v t (n, e, c) = rw (← e, channel_re_complete t c)

-- A value is accepted as a channel id exactly if it is not None and, as a text and stripped of white
-- space, it is 1 to 64 of the allowed characters, the first a letter or a digit; the id is that text.
pub validate_channel_iff :
    (v : Value) (t : Text)
    → (validate_channel v ≡ ok t) ↔ ((v ≢ null) × (t ≡ strip (to_text v)) × IsChannel t)
validate_channel_iff v t = (validate_channel_sound v t, validate_channel_complete v t)

-- Neither white space, so no newline, nor what the key=value output gives a meaning to.
abbrev pub is_inert : ℕ → Bool
is_inert c = not (is_space c || c == b'"' || c == b'=' || c == b',')

is_inert-channel_char : (c : ℕ) → is_channel_char c ≡ true → is_inert c ≡ true
unfolding is_channel_char is_space
is_inert-channel_char c h = ground arith

all-is_inert : (s : Text) → all is_channel_char s ≡ true → all is_inert s ≡ true
all-is_inert [] h = refl
all-is_inert (c ∷ s) h = ground (arith, is_inert-channel_char c, all-is_inert s)

IsChannel-all : (t : Text) → IsChannel t → all is_channel_char t ≡ true
unfolding is_channel_char
IsChannel-all [] h = absurd h
IsChannel-all (c ∷ s) h = ground arith

-- No character of an accepted id is white space, a quote, an equals sign or a comma, so it cannot
-- forge a field or a line of the output.
pub validate_channel-is_inert :
    (v : Value) (t : Text) → validate_channel v ≡ ok t → all is_inert t ≡ true
validate_channel-is_inert v t h =
    all-is_inert t (IsChannel-all t ((validate_channel_iff v t).0 h).2)

no_space : (s : Text) → all is_inert s ≡ true → any is_space s ≡ false
no_space [] h = refl
no_space (c ∷ s) h = ground (arith, no_space s)

-- Validation is idempotent: an accepted id is accepted again, unchanged.
pub validate_channel_idem :
    (v : Value) (t : Text) → validate_channel v ≡ ok t → validate_channel (text t) ≡ ok t
unfolding to_text
validate_channel_idem v t h = (validate_channel_iff (text t) t).1 (
  cc,
  sym (strip_none t (no_space t (validate_channel-is_inert v t h))),
  ((validate_channel_iff v t).0 h).2,
)
