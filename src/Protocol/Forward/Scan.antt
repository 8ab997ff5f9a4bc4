-- ===== src/Protocol/Forward/Scan.antt =====
-- The scan for fields, over text that the writer of a control line produced.
use sockpost.Common.{
  ℕ, suc, ◌+◌, ◌≡◌, refl, Bool, true, false, [], ◌∷◌, ◌++◌, append_assoc, some, arith, Text, ◌>>=◌,
  length, all, ◌∙◌, ap, ◌≢◌, length-append,
}
use sockpost.Python.Space.{is_space}
use sockpost.Python.Decimal.{
  to_decimal, is_ascii_digit, to_decimal-digits, to_decimal-ne-nil, is_space-digit,
}
use sockpost.Python.Json.{dumps_text, escape, escape_char}
use sockpost.Protocol.Forward.{
  is_key_start, is_key_char, is_bare, take_while, drop_while, quoted_run, bare_run, match_value,
  match_equals, match_field, find_fields,
}

-- One field and what follows it.
abbrev pub field : Text → Text → Text → Text
field key raw rest = key ++ b'=' ∷ (raw ++ rest)

pub find_fields-skip : (xs ys : Text) → find_fields (length xs) (xs ++ ys) ≡ find_fields 0 ys
unfolding find_fields
find_fields-skip [] ys = refl
find_fields-skip (x ∷ xs) ys = find_fields-skip xs ys

module _ (p : ℕ → Bool) (c : ℕ) (t : Text) (stops : p c ≡ false) where
  pub take_while-append : (s : Text) → all p s ≡ true → take_while p (s ++ c ∷ t) ≡ s
  unfolding take_while
  take_while-append [] h = rw stops
  take_while-append (d ∷ s) h = ground (arith, take_while-append s)

  pub drop_while-append : (s : Text) → all p s ≡ true → drop_while p (s ++ c ∷ t) ≡ c ∷ t
  unfolding drop_while
  drop_while-append [] h = rw stops
  drop_while-append (d ∷ s) h = ground (arith, drop_while-append s)

-- A key: a start, then characters that may follow one.
unfoldable pub IsKey : Text → Type 0
IsKey [] = ⊥
IsKey (c ∷ s) = (is_key_start c ≡ true) × (all is_key_char s ≡ true)

match_field-field :
    (c : ℕ) (s raw rest : Text)
    → is_key_start c ≡ true
    → all is_key_char s ≡ true
    → match_value (raw ++ rest) ≡ some raw
    → match_field (c ∷ (s ++ b'=' ∷ (raw ++ rest))) ≡ some (c ∷ s, raw)
unfolding match_field match_equals is_key_char
match_field-field c s raw rest h k m = ground (
  arith,
  take_while-append is_key_char b'=' (raw ++ rest) refl s,
  drop_while-append is_key_char b'=' (raw ++ rest) refl s,
)

find_fields-match :
    (c : ℕ) (t key raw : Text)
    → match_field (c ∷ t) ≡ some (key, raw)
    → find_fields 0 (c ∷ t) ≡ (key, raw) ∷ find_fields (length key + length raw) t
unfolding find_fields
find_fields-match c t key raw h = rw (h, find_fields)

skip-field :
    (s raw rest : Text)
    → find_fields (suc (length s) + length raw) (s ++ b'=' ∷ (raw ++ rest)) ≡ find_fields 0 rest
skip-field s raw rest =
    let e : suc (length s) + length raw ≡ length (s ++ b'=' ∷ raw) =
      omega (arith, length-append {0} s (b'=' ∷ raw)) in
    rw (e, ← append_assoc s (b'=' ∷ raw) rest) (find_fields-skip (s ++ b'=' ∷ raw) rest)

-- The scan reads a field whose value ends where the pattern says.
pub find_fields-field :
    (key raw rest : Text)
    → IsKey key
    → match_value (raw ++ rest) ≡ some raw
    → find_fields 0 (field key raw rest) ≡ (key, raw) ∷ find_fields 0 rest
unfolding IsKey
find_fields-field [] raw rest k m = absurd k
find_fields-field (c ∷ s) raw rest k m =
    find_fields-match c _ (c ∷ s) raw (match_field-field c s raw rest k.0 k.1 m)
    ∙ ap (◌∷◌ (c ∷ s, raw)) (skip-field s raw rest)

pub find_fields-space : (s : Text) → find_fields 0 (b' ' ∷ s) ≡ find_fields 0 s
unfolding find_fields match_field is_key_start
find_fields-space s = refl

quoted_run-escape_char :
    (c : ℕ) (t : Text)
    → quoted_run (escape_char c ++ t) false ≡ (do u ← quoted_run t false; some (escape_char c ++ u))
unfolding quoted_run escape_char
quoted_run-escape_char c t = ground arith

quoted_run-escape :
    (s rest : Text) → quoted_run (escape s ++ b'"' ∷ rest) false ≡ some (escape s ++ b'"' ∷ [])
unfolding escape
quoted_run-escape [] rest = unfold quoted_run in refl
quoted_run-escape (c ∷ s) rest =
    rw (append_assoc, quoted_run-escape_char, quoted_run-escape s rest, append_assoc)

pub match_value-dumps_text :
    (s rest : Text) → match_value (dumps_text s ++ rest) ≡ some (dumps_text s)
unfolding match_value dumps_text
match_value-dumps_text s rest = rw (append_assoc, quoted_run-escape s rest)

is_bare-digit : (c : ℕ) → is_ascii_digit c ≡ true → is_bare c ≡ true
unfolding is_bare
is_bare-digit c h = ground (arith, is_space-digit c h)

digits-bare : (s : Text) → all is_ascii_digit s ≡ true → all is_bare s ≡ true
digits-bare [] h = refl
digits-bare (c ∷ s) h = ground (arith, is_bare-digit c, digits-bare s)

match_value-digits :
    (s rest : Text) → all is_ascii_digit s ≡ true → s ≢ [] → match_value (s ++ b' ' ∷ rest) ≡ some s
unfolding match_value bare_run
match_value-digits [] rest h k = absurd (k refl)
match_value-digits (c ∷ s) rest h k =
    ground (arith, is_bare-digit c, digits-bare s, take_while-append is_bare b' ' rest space_ends s)
  where
    space_ends : is_bare b' ' ≡ false
    space_ends = unfold is_bare is_space in refl

pub match_value-to_decimal :
    (n : ℕ) (rest : Text) → match_value (to_decimal n ++ b' ' ∷ rest) ≡ some (to_decimal n)
match_value-to_decimal n rest =
    match_value-digits (to_decimal n) rest (to_decimal-digits n) (to_decimal-ne-nil n)
