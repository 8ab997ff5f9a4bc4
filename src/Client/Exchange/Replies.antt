-- ===== src/Client/Exchange/Replies.antt =====
-- What a command makes of no reply, of an error and of the reply it waits for.
use sockpost.Common.{◌≡◌, refl, true, false, ◌||◌, [], ◌∷◌, some, Text, codes}
use sockpost.Python.Value.{Request, field_of, to_text}
use sockpost.Client.Settings.{ClientSettings, Complaint, Outcome, fail}
use sockpost.Client.Exchange.{
  object, Ending, closed, broken, dropped, out_of_reach, stream, replied, has_op, encodable,
  exchange, first_wanted, at_ending, after_connecting, roundtrip, replied_with, concluded,
}

module _ (request : Request) (expect : Text) (ending : Ending)
    (sendable : encodable request ≡ true) where
  pub roundtrip-nothing : roundtrip request expect (stream [] ending) ≡ at_ending ending
  unfolding roundtrip exchange after_connecting first_wanted
  roundtrip-nothing = rw (roundtrip, sendable) refl

  pub roundtrip-wanted :
      (obj : Request)
      → (has_op expect obj || has_op (codes "error") obj) ≡ true
      → roundtrip request expect (stream (object obj ∷ []) ending) ≡ replied (some obj)
  unfolding roundtrip exchange after_connecting first_wanted
  roundtrip-wanted obj h = rw (roundtrip, sendable, h) refl

module _ (settings : ClientSettings) (lost : Complaint) (refuse : Text → Complaint)
    (done : Request → Outcome) where
  pub concluded-nothing :
      (ending : Ending) → (concluded settings lost refuse done (at_ending ending)).code ≡ 1
  unfolding concluded at_ending replied_with
  concluded-nothing closed = refl
  concluded-nothing (broken dropped) = refl
  concluded-nothing (broken out_of_reach) = refl

  pub concluded-error :
      (obj : Request)
      → has_op (codes "error") obj ≡ true
      → concluded settings lost refuse done (replied (some obj))
        ≡ fail (refuse (to_text (field_of (codes "error") obj)))
  unfolding concluded replied_with
  concluded-error obj h = rw (concluded, h) refl

  pub concluded-done :
      (obj : Request)
      → has_op (codes "error") obj ≡ false
      → concluded settings lost refuse done (replied (some obj)) ≡ done obj
  unfolding concluded replied_with
  concluded-done obj h = rw (concluded, h) refl
