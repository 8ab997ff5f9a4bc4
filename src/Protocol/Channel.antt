-- ===== src/Protocol/Channel.antt =====
-- protocol.py, `validate_channel`: which labels may name a channel.
pub mod Exact
use sockpost.Common.{
  ℕ, zero, suc, ◌≤◌, ◌≡◌, refl, Bool, true, false, ◌&&◌, ◌||◌, [], ◌∷◌, arith, leb, ◌==◌,
  if◌then◌else◌, Text, all, length, Bool-cases, inl, inr,
}
use sockpost.Common.Result.{Result, ok, err}
use sockpost.Python.Space.{is_space, strip, ends_in_space}
use sockpost.Python.Value.{Value, null, to_text}

-- [A-Za-z0-9]
unfoldable pub is_alphanumeric : ℕ → Bool
is_alphanumeric c = leb b'A' c && leb c b'Z' || leb b'a' c && leb c b'z' || leb b'0' c && leb c b'9'

-- [A-Za-z0-9._-]
unfoldable pub is_channel_char : ℕ → Bool
unfolding is_alphanumeric
is_channel_char c = is_alphanumeric c || c == b'.' || c == b'_' || c == b'-'

-- `$` matches at the end, and before a newline that is the last character.
at_end : Text → Bool
at_end [] = true
at_end (c ∷ []) = c == 10
at_end (c ∷ d ∷ s) = false

-- [A-Za-z0-9._-]{0,room}$
channel_tail : ℕ → Text → Bool
unfolding is_channel_char at_end
channel_tail room [] = true
channel_tail zero (c ∷ s) = at_end (c ∷ s)
channel_tail (suc room) (c ∷ s) =
    let rest = channel_tail room s in if is_channel_char c then rest else at_end (c ∷ s)

-- CHANNEL_RE.match(text)
unfoldable pub channel_re : Text → Bool
unfolding channel_tail
channel_re [] = false
channel_re (c ∷ s) = is_alphanumeric c && channel_tail 63 s

-- The two messages of `ProtocolError`.
pub data ChannelError : Type 0 where
  missing_channel invalid_channel : ChannelError

check_channel : Text → Result ChannelError Text
unfolding channel_re
check_channel s = if channel_re s then ok s else err invalid_channel

unfoldable pub validate_channel : Value → Result ChannelError Text
unfolding check_channel
validate_channel null = err missing_channel
validate_channel value = check_channel (strip (to_text value))

-- What a channel id is meant to be: 1 to 64 characters, the first a letter or a digit, and no other
-- character than those allowed.
abbrev pub IsChannel : Text → Type 0
IsChannel [] = ⊥
IsChannel (c ∷ s) = (is_alphanumeric c ≡ true) × (all is_channel_char s ≡ true) × (length s ≤ 63)

-- A stripped text has no newline for `$` to step over.
not-at_end : (c : ℕ) (s : Text) → at_end (c ∷ s) ≡ true → ends_in_space (c ∷ s) ≡ true
unfolding at_end ends_in_space is_space
not-at_end c [] h = ground arith
not-at_end c (d ∷ s) h = cc

ends_in_space-tail : (c : ℕ) (s : Text) → ends_in_space (c ∷ s) ≡ false → ends_in_space s ≡ false
unfolding ends_in_space
ends_in_space-tail c [] h = refl
ends_in_space-tail c (d ∷ s) h = h

channel_tail_sound :
    (room : ℕ) (s : Text)
    → channel_tail room s ≡ true
    → ends_in_space s ≡ false
    → (all is_channel_char s ≡ true) × (length s ≤ room)
unfolding channel_tail
channel_tail_sound room [] h k = (refl, omega arith)
channel_tail_sound zero (c ∷ s) h k = cc (not-at_end c s h)
channel_tail_sound (suc room) (c ∷ s) h k =
    ground (arith, channel_tail_sound room s, not-at_end c s, ends_in_space-tail c s k)

channel_tail_complete :
    (room : ℕ) (s : Text)
    → all is_channel_char s ≡ true
    → length s ≤ room
    → channel_tail room s ≡ true
unfolding channel_tail
channel_tail_complete room [] h k = refl
channel_tail_complete zero (c ∷ s) h k = absurd (omega arith)
channel_tail_complete (suc room) (c ∷ s) h k = ground (arith, channel_tail_complete room s)

channel_re_sound : (s : Text) → channel_re s ≡ true → ends_in_space s ≡ false → IsChannel s
unfolding channel_re
channel_re_sound [] h k = cc
channel_re_sound (c ∷ s) h k = ground (arith, channel_tail_sound 63 s, ends_in_space-tail c s k)

channel_re_complete : (s : Text) → IsChannel s → channel_re s ≡ true
unfolding channel_re
channel_re_complete [] h = absurd h
channel_re_complete (c ∷ s) h = ground (arith, channel_tail_complete 63 s)

check_channel_sound :
    (s t : Text) → ends_in_space s ≡ false → check_channel s ≡ ok t → (s ≡ t) × IsChannel t
unfolding check_channel
check_channel_sound s t k h = elim (Bool-cases (channel_re s)) [
  | inl e ↦ ground (arith, channel_re_sound s e k)
  | inr e ↦ ground arith
]
