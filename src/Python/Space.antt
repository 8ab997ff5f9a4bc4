-- ===== src/Python/Space.antt =====
-- `str.isspace` of one character, `str.strip` and `str.lower`.
use sockpost.Common.{
  ℕ, ◌+◌, ◌≡◌, refl, Bool, false, ◌||◌, ◌&&◌, [], ◌∷◌, arith, leb, ◌==◌, if◌then◌else◌, Text, any,
}

-- The white space of Unicode: what `\s` matches and `strip` takes off.
unfoldable pub is_space : ℕ → Bool
is_space c =
    leb 9 c && leb c 13
    || leb 28 c && leb c 32
    || c == 133
    || c == 160
    || c == 5760
    || leb 8192 c && leb c 8202
    || c == 8232
    || c == 8233
    || c == 8239
    || c == 8287
    || c == 12288

unfoldable pub strip_left : Text → Text
strip_left [] = []
strip_left (c ∷ s) = let rest = strip_left s in if is_space c then rest else c ∷ s

-- `strip_right` drops a run of white space that reaches the end.
keep_end : ℕ → Text → Text
keep_end c [] = if is_space c then [] else c ∷ []
keep_end c (d ∷ s) = c ∷ d ∷ s

unfoldable pub strip_right : Text → Text
unfolding keep_end
strip_right [] = []
strip_right (c ∷ s) = keep_end c (strip_right s)

-- s.strip()
unfoldable pub strip : Text → Text
unfolding strip_left strip_right is_space
strip s = strip_right (strip_left s)

-- s.lower() on ASCII. Of the other letters none is lowered to a text of ASCII letters alone but the
-- Kelvin sign, to `k`, which no pattern or word of the source holds.
unfoldable pub lower : Text → Text
lower [] = []
lower (c ∷ s) = (if leb b'A' c && leb c b'Z' then c + 32 else c) ∷ lower s

-- A text with no white space is left as it is.
pub strip_left_none : (s : Text) → any is_space s ≡ false → strip_left s ≡ s
unfolding strip_left
strip_left_none [] h = refl
strip_left_none (c ∷ s) h = ground arith

keep_end_none : (c : ℕ) (s : Text) → is_space c ≡ false → keep_end c s ≡ c ∷ s
unfolding keep_end
keep_end_none c [] h = rw h
keep_end_none c (d ∷ s) h = refl

strip_right_none : (s : Text) → any is_space s ≡ false → strip_right s ≡ s
unfolding strip_right
strip_right_none [] h = refl
strip_right_none (c ∷ s) h = ground (arith, strip_right_none s, keep_end_none c s)

pub strip_none : (s : Text) → any is_space s ≡ false → strip s ≡ s
unfolding strip
strip_none s h = rw (strip_left_none s h) (strip_right_none s h)

-- The last character is white space.
unfoldable pub ends_in_space : Text → Bool
ends_in_space [] = false
ends_in_space (c ∷ []) = is_space c
ends_in_space (c ∷ d ∷ s) = ends_in_space (d ∷ s)

keep_end-ends : (c : ℕ) (s : Text) → ends_in_space s ≡ false → ends_in_space (keep_end c s) ≡ false
unfolding keep_end ends_in_space
keep_end-ends c [] h = ground arith
keep_end-ends c (d ∷ s) h = h

strip_right-ends : (s : Text) → ends_in_space (strip_right s) ≡ false
unfolding strip_right
strip_right-ends [] = unfold ends_in_space in refl
strip_right-ends (c ∷ s) = keep_end-ends c (strip_right s) (strip_right-ends s)

-- A stripped text does not end in white space.
pub strip-ends : (s : Text) → ends_in_space (strip s) ≡ false
unfolding strip
strip-ends s = strip_right-ends (strip_left s)
