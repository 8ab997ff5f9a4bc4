-- ===== src/Protocol/Encoding.antt =====
-- protocol.py, `encode`: which values UTF-8 can hold. A float, a list and an object are taken to be encodable.
use sockpost.Common.{Bool, true, not, ◌&&◌, leb, all, Text}
use sockpost.Python.Value.{Value, text}

-- A text that UTF-8 can hold.
unfoldable pub is_encodable : Text → Bool
is_encodable = all (λ c. not (leb 0xD800 c && leb c 0xDFFF))

unfoldable pub encodable_value : Value → Bool
unfolding is_encodable
encodable_value (text s) = is_encodable s
encodable_value _ = true
