-- ===== src/Python/Json.antt =====
-- `json.dumps(s, ensure_ascii=False)` of a text, and `json.loads` of a JSON string.
use sockpost.Common.{
  ℕ, zero, suc, ◌+◌, ◌-◌, ◌*◌, ◌/◌, ◌%◌, ◌<◌, ◌≡◌, refl, Bool, true, false, ◌&&◌, [], ◌∷◌, ◌++◌,
  append_assoc, Option, none, some, arith, leb, ltb, ◌==◌, if◌then◌else◌, Text, ◌>>=◌, all, not,
}

hex_digit : ℕ → ℕ
hex_digit d = if ltb d 10 then b'0' + d else b'a' + (d - 10)

-- What the encoder writes for one character.
unfoldable pub escape_char : ℕ → Text
unfolding hex_digit
escape_char c =
    if c == b'"'
    then b'\\' ∷ b'"' ∷ []
    else if c == b'\\'
    then b'\\' ∷ b'\\' ∷ []
    else if c == 10
    then b'\\' ∷ b'n' ∷ []
    else if c == 13
    then b'\\' ∷ b'r' ∷ []
    else if c == 9
    then b'\\' ∷ b't' ∷ []
    else if c == 12
    then b'\\' ∷ b'f' ∷ []
    else if c == 8
    then b'\\' ∷ b'b' ∷ []
    else if ltb c 32
    then b'\\' ∷ b'u' ∷ b'0' ∷ b'0' ∷ hex_digit (c / 16) ∷ hex_digit (c % 16) ∷ []
    else c ∷ []

unfoldable pub escape : Text → Text
escape [] = []
escape (c ∷ s) = escape_char c ++ escape s

-- json.dumps(s, ensure_ascii=False)
unfoldable pub dumps_text : Text → Text
unfolding escape escape_char
dumps_text s = b'"' ∷ (escape s ++ b'"' ∷ [])

hex_value : ℕ → Option ℕ
hex_value c =
    if leb b'0' c && leb c b'9'
    then some (c - b'0')
    else if leb b'a' c && leb c b'f'
    then some (c - b'a' + 10)
    else if leb b'A' c && leb c b'F'
    then some (c - b'A' + 10)
    else none

-- The character that a backslash and `e` stand for.
simple_escape : ℕ → Option ℕ
simple_escape e =
    if e == b'"'
    then some b'"'
    else if e == b'\\'
    then some b'\\'
    else if e == b'/'
    then some b'/'
    else if e == b'b'
    then some 8
    else if e == b'f'
    then some 12
    else if e == b'n'
    then some 10
    else if e == b'r'
    then some 13
    else if e == b't'
    then some 9
    else none

-- Where the decoder stands: in the text, behind a backslash, or in a `\u` escape with `k` digits to
-- come after the next and the value so far.
pub data Mode : Type 0 where
  plain backslash : Mode
  hex : ℕ → ℕ → Mode

-- A high surrogate just read waits for a low one.
flush : Option ℕ → Text → Text
flush none t = t
flush (some h) t = h ∷ t

is_high : ℕ → Bool
is_high u = leb 0xd800 u && leb u 0xdbff

is_low : ℕ → Bool
is_low u = leb 0xdc00 u && leb u 0xdfff

joined : ℕ → ℕ → ℕ
joined h u = 0x10000 + (h - 0xd800) * 0x400 + (u - 0xdc00)

-- What a complete `\u` escape adds to the text, and the surrogate that then waits.
unit_text : Option ℕ → ℕ → Text
unfolding flush is_high is_low joined
unit_text (some h) u =
    if is_low u then joined h u ∷ [] else flush (some h) (if is_high u then [] else u ∷ [])
unit_text none u = if is_high u then [] else u ∷ []

unit_waiting : ℕ → Option ℕ
unfolding is_high
unit_waiting u = if is_high u then some u else none

is_empty : Text → Bool
is_empty [] = true
is_empty (c ∷ s) = false

-- The text behind the opening quote. `none` is a ValueError: no closing quote at the very end, a
-- control character, or an escape that JSON does not know.
read : Text → Mode → Option ℕ → Option Text
read [] m waiting = none
read (c ∷ s) plain waiting =
    let escaped = read s backslash waiting in
    let copied = (do t ← read s plain none; some (flush waiting (c ∷ t))) in
    if c == b'"'
    then (if is_empty s then some (flush waiting []) else none)
    else if c == b'\\'
    then escaped
    else if ltb c 32
    then none
    else copied
read (e ∷ s) backslash waiting =
    let unicode = read s (hex 3 0) waiting in
    let copied = (do c ← simple_escape e; t ← read s plain none; some (flush waiting (c ∷ t))) in
    if e == b'u' then unicode else copied
read (c ∷ s) (hex (suc k) u) waiting = do d ← hex_value c; read s (hex k (u * 16 + d)) waiting
read (c ∷ s) (hex zero u) waiting = do
  d ← hex_value c
  t ← read s plain (unit_waiting (u * 16 + d))
  some (unit_text waiting (u * 16 + d) ++ t)

-- json.loads(raw), where `raw` begins with a quote
unfoldable pub loads_text : Text → Option Text
unfolding read flush unit_text unit_waiting is_empty hex_value simple_escape
loads_text [] = none
loads_text (c ∷ s) = if c == b'"' then read s plain none else none

hex_value-hex_digit : (d : ℕ) → d < 16 → hex_value (hex_digit d) ≡ some d
unfolding hex_value hex_digit
hex_value-hex_digit d h = ground arith

-- Reading what was written for a character gives the character.
read-escape_char :
    (c : ℕ) (rest : Text)
    → read (escape_char c ++ rest) plain none ≡ (do t ← read rest plain none; some (c ∷ t))
unfolding read escape_char flush simple_escape unit_text unit_waiting
read-escape_char c rest =
    ground
      (arith, hex_value-hex_digit (c / 16), hex_value-hex_digit (c % 16), hex_value-hex_digit 0)

read-escape : (s : Text) → read (escape s ++ b'"' ∷ []) plain none ≡ some s
unfolding escape
read-escape [] = unfold read flush is_empty in refl
read-escape (c ∷ s) = rw (append_assoc, read-escape_char, read-escape s)

-- `json.loads` reads back every text that `json.dumps` wrote.
pub loads_text-dumps_text : (s : Text) → loads_text (dumps_text s) ≡ some s
unfolding loads_text dumps_text
loads_text-dumps_text s = read-escape s

-- No character of a text is a newline.
abbrev pub is_one_line : Text → Bool
is_one_line = all (λ c. not (c == 10))

escape_char-one_line :
    (c : ℕ) (t : Text) → is_one_line t ≡ true → is_one_line (escape_char c ++ t) ≡ true
unfolding escape_char hex_digit
escape_char-one_line c t h = ground arith

escape-one_line : (s t : Text) → is_one_line t ≡ true → is_one_line (escape s ++ t) ≡ true
unfolding escape
escape-one_line [] t h = h
escape-one_line (c ∷ s) t h =
    rw append_assoc (escape_char-one_line c (escape s ++ t) (escape-one_line s t h))

-- Quoted text stays on one line.
pub dumps_text-one_line :
    (s t : Text) → is_one_line t ≡ true → is_one_line (dumps_text s ++ t) ≡ true
unfolding dumps_text
dumps_text-one_line s t h = rw append_assoc (escape-one_line s (b'"' ∷ t) h)
