-- ===== src/Python/Decimal.antt =====
-- `str(n)` or `%d` of a number, and `int(s)` of a text.
use sockpost.Common.{
  ℕ, zero, suc, ◌+◌, ◌-◌, ◌*◌, ◌/◌, ◌%◌, ◌≤◌, ◌<◌, ◌≡◌, ◌≢◌, refl, Bool, true, false, ◌&&◌, not,
  ◌++◌, List, [], ◌∷◌, Option, none, some, arith, leb, ltb, ◌==◌, if◌then◌else◌, Text, all, any,
  ◌>>=◌, ◌∙◌,
}
use mathlib.Core.List.{cons-ne-nil}
use sockpost.Common.Int.{ℤ, pos, negated}
use sockpost.Python.Space.{is_space, strip, strip_none}

-- The digits zero of Unicode 14 beyond ASCII: each begins a run of ten decimal digits.
later_zeros : List ℕ
later_zeros =
    0x660 ∷ 0x6f0 ∷ 0x7c0 ∷ 0x966 ∷ 0x9e6 ∷ 0xa66 ∷ 0xae6 ∷ 0xb66 ∷ 0xbe6 ∷ 0xc66 ∷ 0xce6 ∷ 0xd66
    ∷ 0xde6 ∷ 0xe50 ∷ 0xed0 ∷ 0xf20 ∷ 0x1040 ∷ 0x1090 ∷ 0x17e0 ∷ 0x1810 ∷ 0x1946 ∷ 0x19d0 ∷ 0x1a80
    ∷ 0x1a90 ∷ 0x1b50 ∷ 0x1bb0 ∷ 0x1c40 ∷ 0x1c50 ∷ 0xa620 ∷ 0xa8d0 ∷ 0xa900 ∷ 0xa9d0 ∷ 0xa9f0
    ∷ 0xaa50 ∷ 0xabf0 ∷ 0xff10 ∷ 0x104a0 ∷ 0x10d30 ∷ 0x11066 ∷ 0x110f0 ∷ 0x11136 ∷ 0x111d0 ∷ 0x112f0
    ∷ 0x11450 ∷ 0x114d0 ∷ 0x11650 ∷ 0x116c0 ∷ 0x11730 ∷ 0x118e0 ∷ 0x11950 ∷ 0x11c50 ∷ 0x11d50
    ∷ 0x11da0 ∷ 0x16a60 ∷ 0x16ac0 ∷ 0x16b50 ∷ 0x1d7ce ∷ 0x1d7d8 ∷ 0x1d7e2 ∷ 0x1d7ec ∷ 0x1d7f6
    ∷ 0x1e140 ∷ 0x1e2f0 ∷ 0x1e950 ∷ 0x1fbf0 ∷ []

digit_from : List ℕ → ℕ → Option ℕ
digit_from [] c = none
digit_from (z ∷ zs) c =
    let rest = digit_from zs c in if leb z c && ltb c (z + 10) then some (c - z) else rest

-- The value of a decimal digit: what `\d` matches and `int` reads.
unfoldable pub digit : ℕ → Option ℕ
unfolding later_zeros digit_from
digit c = digit_from (b'0' ∷ later_zeros) c

show : ℕ → ℕ → Text → Text
show zero n out = out
show (suc f) n out =
    let rest = show f (n / 10) ((b'0' + n % 10) ∷ out) in if n == 0 then out else rest

-- "%d" % n. The fuel `n` is enough, since each round divides by ten.
unfoldable pub to_decimal : ℕ → Text
unfolding show
to_decimal n = if n == 0 then b'0' ∷ [] else show n n []

-- The digits of `int(s)`: an underscore may stand between two of them.
scan : Text → ℕ → Bool → Option ℕ
scan [] n after_digit = if after_digit then some n else none
scan (c ∷ s) n after_digit = elim (digit c) [
  | some d ↦ scan s (n * 10 + d) true
  | none ↦ elim (c == b'_' && after_digit) [ true ↦ scan s n false | false ↦ none ]
]

unsigned : Text → Option ℤ
unfolding scan
unsigned s = do n ← scan s 0 false; some (pos n)

signed : Text → Option ℤ
unfolding unsigned
signed [] = none
signed (c ∷ s) =
    if c == b'-'
    then (do n ← scan s 0 false; some (negated n))
    else if c == b'+'
    then unsigned s
    else unsigned (c ∷ s)

-- int(s), `none` for a ValueError. Python's limit on the number of digits is not modelled.
unfoldable pub int_text : Text → Option ℤ
unfolding signed
int_text s = signed (strip s)

-- White space alone is no number.
pub int_text-blank : (s : Text) → strip s ≡ [] → int_text s ≡ none
unfolding int_text signed
int_text-blank s q = rw q refl

pub digit-ascii : (d : ℕ) → d < 10 → digit (b'0' + d) ≡ some d
unfolding digit
digit-ascii d h = ground arith

-- A decimal digit of ASCII.
abbrev pub is_ascii_digit : ℕ → Bool
is_ascii_digit c = leb b'0' c && leb c b'9'

show-digits :
    (f n : ℕ) (out : Text)
    → all is_ascii_digit out ≡ true
    → all is_ascii_digit (show f n out) ≡ true
unfolding show
show-digits zero n out h = h
show-digits (suc f) n out h = ground (arith, show-digits f (n / 10) ((b'0' + n % 10) ∷ out))

pub to_decimal-digits : (n : ℕ) → all is_ascii_digit (to_decimal n) ≡ true
unfolding to_decimal
to_decimal-digits n = ground (arith, show-digits n n [] refl)

pub is_space-digit : (c : ℕ) → is_ascii_digit c ≡ true → is_space c ≡ false
unfolding is_space
is_space-digit c h = ground arith

pub digits_no_space : (s : Text) → all is_ascii_digit s ≡ true → any is_space s ≡ false
digits_no_space [] h = refl
digits_no_space (c ∷ s) h = ground (arith, is_space-digit c, digits_no_space s)

scan-digit :
    (s : Text) (n d : ℕ) (b : Bool) → d < 10 → scan ((b'0' + d) ∷ s) n b ≡ scan s (n * 10 + d) true
unfolding scan
scan-digit s n d b h = ground (arith, digit-ascii d h)

scan-show :
    (f n : ℕ) (out : Text) (b : Bool) → 0 < n → n ≤ f → scan (show f n out) 0 b ≡ scan out n true
unfolding show
scan-show zero n out b h k = absurd (omega arith)
scan-show (suc f) n out b h k = ground (
  arith,
  scan-show f (n / 10) ((b'0' + n % 10) ∷ out) b,
  scan-digit out (n / 10) (n % 10) true,
  scan-digit out 0 n b,
  show-zero f ((b'0' + n % 10) ∷ out),
)
  where
    show-zero : (f : ℕ) (out : Text) → show f 0 out ≡ out
    show-zero zero out = refl
    show-zero (suc f) out = refl

signed-unsigned : (s : Text) → all is_ascii_digit s ≡ true → s ≢ [] → signed s ≡ unsigned s
unfolding signed
signed-unsigned [] h k = absurd (k refl)
signed-unsigned (c ∷ s) h k = ground arith

show-ne-nil : (f n : ℕ) (out : Text) → out ≢ [] → show f n out ≢ []
unfolding show
show-ne-nil zero n out h = h
show-ne-nil (suc f) n out h =
    ground (arith, show-ne-nil f (n / 10) ((b'0' + n % 10) ∷ out), cons-ne-nil (b'0' + n % 10) out)

pub to_decimal-ne-nil : (n : ℕ) → to_decimal n ≢ []
unfolding to_decimal
to_decimal-ne-nil zero = cc
to_decimal-ne-nil (suc n) = ground (
  arith,
  show-ne-nil n (suc n / 10) ((b'0' + suc n % 10) ∷ []),
  cons-ne-nil (b'0' + suc n % 10) [],
)

scan-nil : (n : ℕ) → scan [] n true ≡ some n
unfolding scan
scan-nil n = refl

unsigned-to_decimal : (n : ℕ) → unsigned (to_decimal n) ≡ some (pos n)
unfolding unsigned to_decimal
unsigned-to_decimal n =
    ground (arith, scan-show n n [] false, scan-digit [] 0 0 false, scan-nil n, scan-nil 0)

-- What `%d` prints is read back by `int`.
pub int_text-to_decimal : (n : ℕ) → int_text (to_decimal n) ≡ some (pos n)
unfolding int_text
int_text-to_decimal n =
    rw (strip_none _ (digits_no_space _ (to_decimal-digits n)))
      (signed-unsigned _ (to_decimal-digits n) (to_decimal-ne-nil n) ∙ unsigned-to_decimal n)

digits-one_line :
    (s t : Text)
    → all is_ascii_digit s ≡ true
    → all (λ c. not (c == 10)) t ≡ true
    → all (λ c. not (c == 10)) (s ++ t) ≡ true
digits-one_line [] t h k = k
digits-one_line (c ∷ s) t h k = ground (arith, digits-one_line s t)

pub to_decimal-one_line :
    (n : ℕ) (t : Text)
    → all (λ c. not (c == 10)) t ≡ true
    → all (λ c. not (c == 10)) (to_decimal n ++ t) ≡ true
to_decimal-one_line n t = digits-one_line (to_decimal n) t (to_decimal-digits n)

-- The number that digits spell behind `n`.
unfoldable pub value_from : ℕ → Text → ℕ
value_from n [] = n
value_from n (c ∷ s) = value_from (n * 10 + (c - b'0')) s

value_from-show : (f n : ℕ) (out : Text) → n ≤ f → value_from 0 (show f n out) ≡ value_from n out
unfolding value_from show
value_from-show zero n out h = let e : n ≡ 0 = omega arith in rw e
value_from-show (suc f) n out h = ground (arith, value_from-show f (n / 10) ((b'0' + n % 10) ∷ out))

pub value_from-to_decimal : (n : ℕ) → value_from 0 (to_decimal n) ≡ n
unfolding to_decimal value_from
value_from-to_decimal n = ground (arith, value_from-show n n [])

pub digit-is_ascii_digit : (c : ℕ) → is_ascii_digit c ≡ true → digit c ≡ some (c - b'0')
digit-is_ascii_digit c h =
    let e : b'0' + (c - b'0') ≡ c = ground arith in rw e at (digit-ascii (c - b'0') (ground arith))

digit_from-none :
    (zs : List ℕ) (c : ℕ) → all (λ z. leb 0x660 z) zs ≡ true → c < 0x660 → digit_from zs c ≡ none
unfolding digit_from
digit_from-none [] c h k = refl
digit_from-none (z ∷ zs) c h k = ground (arith, digit_from-none zs c)

later_zeros-none : (c : ℕ) → c < 0x660 → digit_from later_zeros c ≡ none
unfolding later_zeros
later_zeros-none c k = digit_from-none _ c refl k

digit_from-skip : (zs : List ℕ) (c : ℕ) → b'9' < c → digit_from (b'0' ∷ zs) c ≡ digit_from zs c
unfolding digit_from
digit_from-skip zs c h = ground arith

-- No letter or punctuation of ASCII behind `9` is a digit.
pub digit-none : (c : ℕ) → b'9' < c → c < 0x660 → digit c ≡ none
unfolding digit
digit-none c h k = digit_from-skip later_zeros c h ∙ later_zeros-none c k
