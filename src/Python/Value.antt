-- ===== src/Python/Value.antt =====
-- The values that a JSON request holds, with `str`, `int` and the truth of each.
use sockpost.Common.{
  suc, Bool, true, false, not, ◌∷◌, [], Option, none, some, Text, codes, text_instance, ◌==◌,
}
use sockpost.Common.Dict.{Dict, get}
use sockpost.Common.Int.{ℤ, pos, negsuc}
use sockpost.Python.Decimal.{to_decimal, int_text}

-- int(value): a number, a TypeError or ValueError, or the OverflowError of an infinite float.
pub data Conversion : Type 0 where
  number : ℤ → Conversion
  invalid overflow : Conversion

-- A float, a list or an object is seen only through `str`, `bool` and `int`, which it carries along.
pub data Value : Type 0 where
  null : Value
  bool : Bool → Value
  int : ℤ → Value
  text : Text → Value
  other : (shown : Text) → (truth : Bool) → (converted : Conversion) → Value

unfoldable pub show_int : ℤ → Text
show_int (pos n) = to_decimal n
show_int (negsuc n) = b'-' ∷ to_decimal (suc n)

-- str(value)
unfoldable pub to_text : Value → Text
unfolding show_int
to_text null = codes "None"
to_text (bool true) = codes "True"
to_text (bool false) = codes "False"
to_text (int z) = show_int z
to_text (text s) = s
to_text (other shown truth converted) = shown

conversion : Option ℤ → Conversion
conversion none = invalid
conversion (some z) = number z

-- int(value)
unfoldable pub to_int : Value → Conversion
unfolding conversion
to_int null = invalid
to_int (bool true) = number (pos 1)
to_int (bool false) = number (pos 0)
to_int (int z) = number z
to_int (text s) = conversion (int_text s)
to_int (other shown truth converted) = converted

-- bool(value)
unfoldable pub truth_of : Value → Bool
truth_of null = false
truth_of (bool b) = b
truth_of (int (pos n)) = not (n == 0)
truth_of (int (negsuc n)) = true
truth_of (text []) = false
truth_of (text (c ∷ s)) = true
truth_of (other shown truth converted) = truth

-- A request is a JSON object; `request.get(key)` is `None` where the key is missing.
abbrev pub Request : Type 0
Request = Dict Text Value

or_null : Option Value → Value
or_null none = null
or_null (some v) = v

unfoldable pub field_of : Text → Request → Value
unfolding or_null
field_of key request = or_null (get key request)
