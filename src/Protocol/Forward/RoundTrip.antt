-- ===== src/Protocol/Forward/RoundTrip.antt =====
-- A forwarded body is split into the provenance that it was written with and the original text.
use sockpost.Common.{
  ℕ, ◌≡◌, refl, true, false, List, [], ◌∷◌, ◌++◌, append_assoc, Option, none, some, arith, Text,
  codes, all, ◌∙◌, text_eq, text_instance, append-nil,
}
use sockpost.Common.Dict.{put, get, remove}
use sockpost.Python.Decimal.{
  to_decimal, is_ascii_digit, to_decimal-digits, int_text-to_decimal, to_decimal-one_line,
}
use sockpost.Python.Json.{dumps_text, loads_text-dumps_text, is_one_line, dumps_text-one_line}
use sockpost.Protocol.Forward.{
  Fields, forward_mark, forward_header_version, forward_header, forward_body, parse_forward_header,
  split_forward, forward_hops, find_fields, field_value, assign_fields, not_newline, join,
  note_parts, is_key_start, is_key_char, is_prose,
}
use sockpost.Protocol.Forward.Scan.{
  field, IsKey, find_fields-field, find_fields-space, match_value-dumps_text,
  match_value-to_decimal, take_while-append, drop_while-append,
}

with_note : Option Text → Fields → Fields
with_note none fields = fields
with_note (some []) fields = fields
with_note (some (c ∷ s)) fields = (codes "note", c ∷ s) ∷ fields

-- The fields that a reader of the copy finds, as a dict.
pub provenance : Text → Text → ℕ → Text → ℕ → Option Text → Fields
unfolding with_note
provenance origin forwarder source_id created_at hops note = with_note note (
    (codes "at", created_at)
    ∷ (codes "ref", to_decimal source_id)
    ∷ (codes "via", forwarder)
    ∷ (codes "from", origin)
    ∷ (codes "hops", to_decimal hops)
    ∷ (codes "v", to_decimal forward_header_version)
    ∷ [])

note_text : Option Text → Text
note_text none = []
note_text (some []) = []
note_text (some (c ∷ s)) = b' ' ∷ field (codes "note") (dumps_text (c ∷ s)) []

note_raws : Option Text → List (Text × Text)
note_raws none = []
note_raws (some []) = []
note_raws (some (c ∷ s)) = (codes "note", dumps_text (c ∷ s)) ∷ []

join-note :
    (created_at : Text) (note : Option Text)
    → join ((codes "at=" ++ dumps_text created_at) ∷ note_parts note)
      ≡ codes "at=" ++ (dumps_text created_at ++ note_text note)
unfolding join note_parts note_text
join-note created_at none = rw append-nil
join-note created_at (some []) = rw append-nil
join-note created_at (some (c ∷ s)) = simp append-nil

text_field :
    (key s rest : Text)
    → IsKey key
    → find_fields 0 (b' ' ∷ field key (dumps_text s) rest)
      ≡ (key, dumps_text s) ∷ find_fields 0 rest
text_field key s rest k =
    find_fields-space _ ∙ find_fields-field key _ rest k (match_value-dumps_text s rest)

number_field :
    (key : Text) (n : ℕ) (rest : Text)
    → IsKey key
    → find_fields 0 (b' ' ∷ field key (to_decimal n) (b' ' ∷ rest))
      ≡ (key, to_decimal n) ∷ find_fields 0 (b' ' ∷ rest)
number_field key n rest k =
    find_fields-space _ ∙ find_fields-field key _ _ k (match_value-to_decimal n rest)

find_fields-note : (note : Option Text) → find_fields 0 (note_text note) ≡ note_raws note
unfolding note_text note_raws IsKey is_key_start is_key_char
find_fields-note none = unfold find_fields in refl
find_fields-note (some []) = unfold find_fields in refl
find_fields-note (some (c ∷ s)) =
    text_field (codes "note") (c ∷ s) [] (refl, refl) ∙ unfold find_fields in refl

field_value-dumps_text : (s : Text) → field_value (dumps_text s) ≡ some s
unfolding field_value dumps_text
field_value-dumps_text s = loads_text-dumps_text s

field_value-digits : (s : Text) → all is_ascii_digit s ≡ true → field_value s ≡ some s
unfolding field_value
field_value-digits [] h = refl
field_value-digits (c ∷ s) h = ground arith

field_value-to_decimal : (n : ℕ) → field_value (to_decimal n) ≡ some (to_decimal n)
field_value-to_decimal n = field_value-digits _ (to_decimal-digits n)

assign_fields-note :
    (note : Option Text) (fields : Fields)
    → remove (codes "note") fields ≡ fields
    → assign_fields (note_raws note) fields ≡ some (with_note note fields)
unfolding assign_fields note_raws with_note
assign_fields-note none fields h = refl
assign_fields-note (some []) fields h = refl
assign_fields-note (some (c ∷ s)) fields h = rw field_value-dumps_text (unfold put in rw h)

note_text-one_line : (note : Option Text) → is_one_line (note_text note) ≡ true
unfolding note_text
note_text-one_line none = refl
note_text-one_line (some []) = refl
note_text-one_line (some (c ∷ s)) = dumps_text-one_line (c ∷ s) [] refl

get-with_note :
    (note : Option Text) (hops : ℕ) (a b c d : Text × Text) (fields : Fields)
    → get (codes "hops") (a ∷ b ∷ c ∷ d ∷ fields) ≡ some (to_decimal hops)
    → get (codes "hops") (with_note note (a ∷ b ∷ c ∷ d ∷ fields)) ≡ some (to_decimal hops)
unfolding with_note get text_eq
get-with_note none hops a b c d fields h = h
get-with_note (some []) hops a b c d fields h = h
get-with_note (some (x ∷ s)) hops a b c d fields h = h

module _ (origin forwarder : Text) (source_id : ℕ) (created_at : Text) (hops : ℕ)
    (note : Option Text) where
  -- What stands behind the mark, one field after the other.
  remainder : Text
  unfolding note_text
  remainder =
      b' '
      ∷ field (codes "v") (to_decimal forward_header_version) (
          b' '
          ∷ field (codes "hops") (to_decimal hops) (
              b' '
              ∷ field (codes "from") (dumps_text origin) (
                  b' '
                  ∷ field (codes "via") (dumps_text forwarder) (
                      b' '
                      ∷ field (codes "ref") (to_decimal source_id)
                          (b' ' ∷ field (codes "at") (dumps_text created_at) (note_text note))))))

  forward_header-remainder :
      forward_header origin forwarder source_id created_at hops note ≡ forward_mark ++ remainder
  unfolding forward_header remainder
  forward_header-remainder = simp (join-note, append_assoc)

  raws : List (Text × Text)
  unfolding note_raws
  raws =
      (codes "v", to_decimal forward_header_version)
      ∷ (codes "hops", to_decimal hops)
      ∷ (codes "from", dumps_text origin)
      ∷ (codes "via", dumps_text forwarder)
      ∷ (codes "ref", to_decimal source_id)
      ∷ (codes "at", dumps_text created_at)
      ∷ note_raws note

  find_fields-remainder : find_fields 0 remainder ≡ raws
  unfolding remainder raws IsKey is_key_start is_key_char
  find_fields-remainder = rw (
    number_field (codes "v") forward_header_version _ (refl, refl),
    number_field (codes "hops") hops _ (refl, refl),
    text_field (codes "from") origin _ (refl, refl),
    text_field (codes "via") forwarder _ (refl, refl),
    number_field (codes "ref") source_id _ (refl, refl),
    text_field (codes "at") created_at _ (refl, refl),
    find_fields-note note,
  )

  assign_fields-raws :
      assign_fields raws [] ≡ some (provenance origin forwarder source_id created_at hops note)
  unfolding assign_fields raws provenance
  assign_fields-raws =
      rw
        (
          field_value-to_decimal, field_value-to_decimal, field_value-dumps_text,
          field_value-dumps_text, field_value-to_decimal, field_value-dumps_text,
        )
        (unfold put remove text_eq in assign_fields-note note _ refl)

  is_prose-remainder : is_prose remainder ≡ false
  unfolding is_prose remainder
  is_prose-remainder = refl

  parse_forward_header-forward_header :
      parse_forward_header (forward_header origin forwarder source_id created_at hops note)
      ≡ some (provenance origin forwarder source_id created_at hops note)
  unfolding parse_forward_header
  parse_forward_header-forward_header =
      rw (forward_header-remainder, is_prose-remainder, find_fields-remainder) assign_fields-raws

  remainder-one_line : all not_newline remainder ≡ true
  unfolding remainder not_newline
  remainder-one_line = to_decimal-one_line forward_header_version _ (
      to_decimal-one_line hops _ (
        dumps_text-one_line origin _ (
          dumps_text-one_line forwarder _ (
            to_decimal-one_line source_id _
              (dumps_text-one_line created_at _ (note_text-one_line note))))))

  forward_header-no_newline :
      all not_newline (forward_header origin forwarder source_id created_at hops note) ≡ true
  unfolding not_newline
  forward_header-no_newline = rw forward_header-remainder remainder-one_line

  -- Splitting a forwarded body gives the provenance that it was written with, whatever the texts hold
  -- (quotes, newlines, `=`), and the original text, character for character.
  pub split_forward-forward_body :
      (text : Text)
      → split_forward (forward_body text origin forwarder source_id created_at hops note)
        ≡ (some (provenance origin forwarder source_id created_at hops note), text)
  unfolding split_forward forward_body
  split_forward-forward_body text = rw (
    take_while-append not_newline 10 text refl _ forward_header-no_newline,
    drop_while-append not_newline 10 text refl _ forward_header-no_newline,
    parse_forward_header-forward_header,
  )

  get-provenance :
      get (codes "hops") (provenance origin forwarder source_id created_at hops note)
      ≡ some (to_decimal hops)
  unfolding provenance
  get-provenance = get-with_note note hops _ _ _ _ _ (unfold get text_eq in refl)

  -- A forwarded body is recognised, and its hop count is read back.
  pub forward_hops-forward_body :
      (text : Text)
      → forward_hops (forward_body text origin forwarder source_id created_at hops note) ≡ some hops
  unfolding forward_hops
  forward_hops-forward_body text =
      rw (split_forward-forward_body, get-provenance, int_text-to_decimal)
