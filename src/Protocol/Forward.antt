-- ===== src/Protocol/Forward.antt =====
-- protocol.py, forwarding: the control line that opens a forwarded body, its writer and its reader.
-- A body and a line are texts: the column `body` is NOT NULL, so `None` does not occur.
pub mod Scan
pub mod RoundTrip
use sockpost.Common.{
  ℕ, zero, suc, ◌+◌, Bool, true, false, not, ◌&&◌, ◌||◌, List, [], ◌∷◌, ◌++◌, Option, none, some,
  leb, ◌==◌, if◌then◌else◌, Text, codes, text_instance, ◌>>=◌, length, drop,
}
use sockpost.Common.Dict.{Dict, get, put}
use sockpost.Common.Int.{ℤ, pos, negsuc}
use sockpost.Python.Space.{is_space}
use sockpost.Python.Decimal.{to_decimal, int_text}
use sockpost.Python.Json.{dumps_text, loads_text}

abbrev pub forward_mark : Text
forward_mark = codes "#sockpost/forward"

abbrev pub forward_header_version : ℕ
forward_header_version = 1

-- " ".join(parts)
pub join : List Text → Text
join [] = []
join (p ∷ []) = p
join (p ∷ q ∷ ps) = p ++ b' ' ∷ join (q ∷ ps)

-- `if note: parts.append(...)`: a note that is missing or empty adds nothing.
pub note_parts : Option Text → List Text
note_parts none = []
note_parts (some []) = []
note_parts (some (c ∷ s)) = (codes "note=" ++ dumps_text (c ∷ s)) ∷ []

unfoldable pub forward_header : Text → Text → ℕ → Text → ℕ → Option Text → Text
unfolding join note_parts
forward_header origin forwarder source_id created_at hops note =
    let opening : Text =
      forward_mark
      ++ (codes " v="
          ++ (to_decimal forward_header_version ++ (codes " hops=" ++ to_decimal hops))) in
    let parts : List Text =
      opening
      ∷ (codes "from=" ++ dumps_text origin)
      ∷ (codes "via=" ++ dumps_text forwarder)
      ∷ (codes "ref=" ++ to_decimal source_id)
      ∷ (codes "at=" ++ dumps_text created_at)
      ∷ [] in
    join (parts ++ note_parts note)

unfoldable pub forward_body : Text → Text → Text → ℕ → Text → ℕ → Option Text → Text
forward_body text origin forwarder source_id created_at hops note =
    forward_header origin forwarder source_id created_at hops note ++ 10 ∷ text

-- [A-Za-z_]
pub is_key_start : ℕ → Bool
is_key_start c = leb b'A' c && leb c b'Z' || leb b'a' c && leb c b'z' || c == b'_'

-- [A-Za-z0-9_]
pub is_key_char : ℕ → Bool
unfolding is_key_start
is_key_char c = is_key_start c || leb b'0' c && leb c b'9'

-- [^\s"]
pub is_bare : ℕ → Bool
is_bare c = not (is_space c || c == b'"')

-- The longest run of characters that pass the test, and what follows it.
pub take_while : (ℕ → Bool) → Text → Text
take_while p [] = []
take_while p (c ∷ s) = let rest = take_while p s in if p c then c ∷ rest else []

pub drop_while : (ℕ → Bool) → Text → Text
drop_while p [] = []
drop_while p (c ∷ s) = let rest = drop_while p s in if p c then rest else c ∷ s

-- `(?:[^"\\]|\\.)*"` behind the opening quote, with the closing one; `.` matches no newline. The
-- alternatives begin with different characters, so there is one way to match.
pub quoted_run : Text → Bool → Option Text
quoted_run [] escaped = none
quoted_run (c ∷ s) true =
    let more = (do t ← quoted_run s false; some (c ∷ t)) in if c == 10 then none else more
quoted_run (c ∷ s) false =
    let escaped = (do t ← quoted_run s true; some (c ∷ t)) in
    let more = (do t ← quoted_run s false; some (c ∷ t)) in
    if c == b'"' then some (c ∷ []) else if c == b'\\' then escaped else more

bare_run : Text → Option Text
unfolding take_while
bare_run [] = none
bare_run (c ∷ s) = if is_bare c then some (c ∷ take_while is_bare s) else none

-- The second group of `_FORWARD_FIELD_RE`.
pub match_value : Text → Option Text
unfolding quoted_run bare_run
match_value [] = none
match_value (c ∷ s) =
    if c == b'"' then (do t ← quoted_run s false; some (c ∷ t)) else bare_run (c ∷ s)

pub match_equals : Text → Option Text
unfolding match_value
match_equals [] = none
match_equals (c ∷ s) = if c == b'=' then match_value s else none

-- `_FORWARD_FIELD_RE` at the start of a text: the key, which is the longest run since no `=` stands in
-- it, and the raw value.
pub match_field : Text → Option (Text × Text)
unfolding take_while drop_while match_equals is_key_start is_key_char is_bare
match_field [] = none
match_field (c ∷ s) =
    if is_key_start c
    then (do
      raw ← match_equals (drop_while is_key_char s)
      some (c ∷ take_while is_key_char s, raw))
    else none

-- `_FORWARD_FIELD_RE.findall`: `skip` characters belong to the last match.
pub find_fields : ℕ → Text → List (Text × Text)
find_fields skip [] = []
find_fields (suc skip) (c ∷ s) = find_fields skip s
find_fields zero (c ∷ s) = elim (match_field (c ∷ s)) [
  | none ↦ find_fields zero s
  | some (key, raw) ↦ (key, raw) ∷ find_fields (length key + length raw) s
]

abbrev pub Fields : Type 0
Fields = Dict Text Text

-- fields[key] = json.loads(raw), or the raw run
pub field_value : Text → Option Text
field_value [] = some []
field_value (c ∷ s) = if c == b'"' then loads_text (c ∷ s) else some (c ∷ s)

pub assign_fields : List (Text × Text) → Fields → Option Fields
unfolding field_value
assign_fields [] fields = some fields
assign_fields ((key, raw) ∷ rest) fields = do
  value ← field_value raw
  assign_fields rest (put key value fields)

-- s.startswith(prefix)
unfoldable pub starts_with : Text → Text → Bool
starts_with [] s = true
starts_with (p ∷ ps) [] = false
starts_with (p ∷ ps) (c ∷ s) = p == c && starts_with ps s

-- `if remainder and not remainder.startswith(" ")`
pub is_prose : Text → Bool
is_prose [] = false
is_prose (c ∷ s) = not (c == b' ')

unfoldable pub parse_forward_header : Text → Option Fields
unfolding starts_with is_prose find_fields assign_fields match_field
parse_forward_header line =
    if not (starts_with forward_mark line)
    then none
    else let remainder = drop (length forward_mark) line in
      if is_prose remainder then none else assign_fields (find_fields 0 remainder) []

pub not_newline : ℕ → Bool
not_newline c = not (c == 10)

-- `rest if separator else ""` of `text.partition("\n")`
after_newline : Text → Text
after_newline [] = []
after_newline (c ∷ s) = s

fields_and_text : Text → Text → Option Fields → Option Fields × Text
fields_and_text body rest none = (none, body)
fields_and_text body rest (some fields) = (some fields, after_newline rest)

unfoldable pub split_forward : Text → Option Fields × Text
unfolding take_while drop_while not_newline after_newline fields_and_text parse_forward_header
split_forward body =
    fields_and_text body (drop_while not_newline body)
      (parse_forward_header (take_while not_newline body))

is_some : Option Fields → Bool
is_some none = false
is_some (some fields) = true

unfoldable pub is_forward : Text → Bool
unfolding is_some split_forward
is_forward body = is_some (split_forward body).0

-- `hops if hops >= 0 else None`
non_negative : ℤ → Option ℕ
non_negative (pos n) = some n
non_negative (negsuc n) = none

hops_of : Option Fields → Option ℕ
unfolding non_negative
hops_of none = some 0
hops_of (some fields) = do raw ← get (codes "hops") fields; hops ← int_text raw; non_negative hops

-- `none` where the counter cannot be read
unfoldable pub forward_hops : Text → Option ℕ
unfolding hops_of split_forward
forward_hops body = hops_of (split_forward body).0
