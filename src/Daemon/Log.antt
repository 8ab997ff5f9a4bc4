-- ===== src/Daemon/Log.antt =====
-- daemon.py, `EventLog`: one record is one line, and the file is moved away when it is large.
use sockpost.Common.{
  ℕ, ◌≡◌, refl, Bool, true, false, ◌||◌, ◌&&◌, List, [], ◌∷◌, ◌++◌, Option, none, some, arith,
  if◌then◌else◌, ◌==◌, ltb, Text, codes, Bool-cases, inl, inr, ◌⊎◌,
}
use sockpost.Python.Json.{is_one_line}
use sockpost.Python.Value.{Value, null, bool, int, text, other, to_text}

flat_char : ℕ → ℕ
flat_char c = if c == 13 || c == 10 || c == 0 then 32 else c

-- The three replacements of `_flatten`, which do not meet.
unfoldable pub flatten : Text → Text
unfolding flat_char
flatten [] = []
flatten (c ∷ s) = flat_char c ∷ flatten s

field_text : Text → Value → Text
unfolding flatten to_text
field_text key value = key ++ (b'=' ∷ flatten (to_text value))

-- The parts behind the first two; None is left out.
field_parts : List (Text × Value) → Text
unfolding field_text
field_parts [] = []
field_parts ((key, null) ∷ fields) = field_parts fields
field_parts ((key, value) ∷ fields) = b' ' ∷ (field_text key value ++ field_parts fields)

-- `write`, the record without its newline, at the time that `now_iso()` gives.
unfoldable pub record_text : Text → Text → List (Text × Value) → Text
unfolding field_parts
record_text now event fields =
    codes "ts=" ++ (now ++ (codes " event=" ++ (event ++ field_parts fields)))

-- The log file and the one it was moved to, where they exist.
pub record LogFiles : Type 0 where
  pub current : Option Text
  pub rotated : Option Text

pub is_large : (Text → ℕ) → ℕ → Option Text → Bool
is_large size max_bytes none = false
is_large size max_bytes (some content) = ltb max_bytes (size content)

pub or_empty_text : Option Text → Text
or_empty_text none = []
or_empty_text (some content) = content

append_record : Text → LogFiles → LogFiles
unfolding or_empty_text
append_record line files = record files {
  current = some (or_empty_text files.current ++ (line ++ 10 ∷ []));
}

rotate : Bool → LogFiles → LogFiles
rotate true files = record { current = none; rotated = files.current }
rotate false files = files

-- `write` where no file operation fails; `size` is the size of a file with a content.
unfoldable pub write_log : (Text → ℕ) → ℕ → Text → Text → List (Text × Value) → LogFiles → LogFiles
unfolding is_large rotate append_record record_text
write_log size max_bytes now event fields files =
    append_record (record_text now event fields)
      (rotate (is_large size max_bytes files.current) files)

one_line-append :
    (s t : Text) → is_one_line s ≡ true → is_one_line t ≡ true → is_one_line (s ++ t) ≡ true
one_line-append [] t h k = k
one_line-append (c ∷ s) t h k = ground (arith, one_line-append s t)

flatten-one_line : (s : Text) → is_one_line (flatten s) ≡ true
unfolding flatten flat_char
flatten-one_line [] = refl
flatten-one_line (c ∷ s) = ground (arith, flatten-one_line s)

unfoldable pub keys_one_line : List (Text × Value) → Bool
keys_one_line [] = true
keys_one_line ((key, value) ∷ fields) = is_one_line key && keys_one_line fields

field_text-one_line :
    (key rest : Text) (value : Value)
    → is_one_line key ≡ true
    → is_one_line rest ≡ true
    → is_one_line (b' ' ∷ (field_text key value ++ rest)) ≡ true
unfolding field_text
field_text-one_line key rest value h k =
    one_line-append (field_text key value) rest
      (one_line-append key (b'=' ∷ flatten (to_text value)) h (flatten-one_line (to_text value))) k

field_parts-one_line :
    (fields : List (Text × Value))
    → keys_one_line fields ≡ true
    → is_one_line (field_parts fields) ≡ true
unfolding field_parts keys_one_line
field_parts-one_line [] h = refl
field_parts-one_line ((key, value) ∷ fields) h =
    by_value value (field_parts-one_line fields (ground arith))
  where
    this : is_one_line key ≡ true
    this = ground arith

    by_value :
        (v : Value)
        → is_one_line (field_parts fields) ≡ true
        → is_one_line (field_parts ((key, v) ∷ fields)) ≡ true
    by_value null rest = rest
    by_value (bool b) rest = field_text-one_line key (field_parts fields) (bool b) this rest
    by_value (int z) rest = field_text-one_line key (field_parts fields) (int z) this rest
    by_value (text s) rest = field_text-one_line key (field_parts fields) (text s) this rest
    by_value (other s t c) rest =
        field_text-one_line key (field_parts fields) (other s t c) this rest

record_text-one_line :
    (now event : Text) (fields : List (Text × Value))
    → is_one_line now ≡ true
    → is_one_line event ≡ true
    → keys_one_line fields ≡ true
    → is_one_line (record_text now event fields) ≡ true
unfolding record_text
record_text-one_line now event fields h k l =
    one_line-append now _ h (one_line-append event _ k (field_parts-one_line fields l))

-- What the log file gained: one line, behind what it held or in a new file.
abbrev pub IsLogged : (Text → ℕ) → ℕ → LogFiles → LogFiles → Type 0
IsLogged size max_bytes before after =
    (record_line : Text) × (is_one_line record_line ≡ true)
    × ((after.current ≡ some (or_empty_text before.current ++ (record_line ++ 10 ∷ [])))
          × (after.rotated ≡ before.rotated)
        ⊎ (is_large size max_bytes before.current ≡ true)
          × (after.current ≡ some (record_line ++ 10 ∷ []))
          × (after.rotated ≡ before.current))

-- Where the time, the event and the names of the fields are on one line, a log record adds exactly one line,
-- whatever the values hold: behind what the file held, or, if that was large, in a new file while the old
-- content is moved away whole.
pub write_log-IsLogged :
    (size : Text → ℕ) (max_bytes : ℕ) (now event : Text) (fields : List (Text × Value))
    (files : LogFiles)
    → is_one_line now ≡ true
    → is_one_line event ≡ true
    → keys_one_line fields ≡ true
    → IsLogged size max_bytes files (write_log size max_bytes now event fields files)
unfolding write_log append_record rotate or_empty_text
write_log-IsLogged size max_bytes now event fields files h k l =
    elim (Bool-cases (is_large size max_bytes files.current)) [
      | inl e ↦ rw e (
        record_text now event fields,
        record_text-one_line now event fields h k l,
        inr (refl, refl, refl),
      )
      | inr e ↦ rw e (
        record_text now event fields,
        record_text-one_line now event fields h k l,
        inl (refl, refl),
      )
    ]
