-- ===== src/Client/Events/Lines.antt =====
-- A message that the daemon sends is shown on one line, from which its text can be read back.
use sockpost.Common.{
  ℕ, ◌≡◌, refl, subst, true, false, List, [], ◌∷◌, ◌++◌, append_assoc, arith, Text, codes, text_eq,
  text_instance, some, append-nil,
}
use sockpost.Common.Dict.{get}
use sockpost.Python.Decimal.{to_decimal, to_decimal-one_line}
use sockpost.Python.Json.{
  dumps_text, loads_text, loads_text-dumps_text, is_one_line, dumps_text-one_line,
}
use sockpost.Python.Value.{Request, field_of, to_text, show_int}
use sockpost.Daemon.State.{Problem, message}
use sockpost.Daemon.Wire.{as_object}
use sockpost.Client.Commands.{quote}
use sockpost.Client.Events.{
  Printed, line, kind_of, kind_of_value, kind_named, shown, message_line, event_lines, print_event,
}

-- What stands before the text.
abbrev pub message_prefix : ℕ → Text → Text → Text
message_prefix id sender created_at =
    codes "message id="
    ++ (to_decimal id
        ++ (codes " from=" ++ (sender ++ (codes " at=" ++ (created_at ++ codes " text=")))))

one_line-append :
    (s t : Text) → is_one_line s ≡ true → is_one_line t ≡ true → is_one_line (s ++ t) ≡ true
one_line-append [] t h k = k
one_line-append (c ∷ s) t h k = ground (arith, one_line-append s t)

-- What is shown of a message event.
abbrev pub IsShown : Text → Text → List Printed → Type 0
IsShown prefix body printed =
    (l : Text) × (printed ≡ line l ∷ [])
    × (is_one_line l ≡ true)
    × (quoted : Text) × (l ≡ prefix ++ quoted)
    × (loads_text quoted ≡ some body)

module _ (error_text : Problem → Text) (repr : Text) (id : ℕ)
    (sender body created_at channel : Text) where
  abbrev obj : Request
  obj = as_object error_text repr (message id sender body created_at)

  print_event-obj :
      print_event obj channel false
      ≡ line (message_prefix id sender created_at ++ dumps_text body) ∷ []
  unfolding print_event kind_of kind_of_value kind_named shown message_line event_lines quote
      as_object field_of get text_eq to_text show_int
  print_event-obj =
      rw (append_assoc (to_decimal id), append_assoc sender, append_assoc created_at) refl

  one_line :
      is_one_line sender ≡ true
      → is_one_line created_at ≡ true
      → is_one_line (message_prefix id sender created_at ++ dumps_text body) ≡ true
  one_line h k =
      one_line-append (message_prefix id sender created_at) (dumps_text body)
        (to_decimal-one_line id _
          (one_line-append sender _ h (one_line-append created_at (codes " text=") k refl)))
        quoted
    where
      quoted : is_one_line (dumps_text body) ≡ true
      quoted =
          subst (λ t. is_one_line t ≡ true) (append-nil (dumps_text body))
            (dumps_text-one_line body [] refl)

-- A listener that does not print JSON shows a message of the daemon, whatever its text holds, on one
-- line, if its sender and its time are on one line; and the text can be read from the end of the
-- line as a JSON string.
pub print_event-IsShown :
    (error_text : Problem → Text) (repr : Text) (id : ℕ) (sender body created_at channel : Text)
    → is_one_line sender ≡ true
    → is_one_line created_at ≡ true
    → IsShown
        (message_prefix id sender created_at)
        body
        (print_event (as_object error_text repr (message id sender body created_at)) channel false)
print_event-IsShown error_text repr id sender body created_at channel h k = (
  message_prefix id sender created_at ++ dumps_text body,
  print_event-obj error_text repr id sender body created_at channel,
  one_line error_text repr id sender body created_at channel h k,
  dumps_text body,
  refl,
  loads_text-dumps_text body,
)
