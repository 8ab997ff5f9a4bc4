-- ===== src/Store/Keyed.antt =====
-- Tables whose rows are told apart by a text: the channels by `id`, the wakeups by `channel`.
use sockpost.Common.{
  ◌≡◌, refl, Bool, false, List, [], ◌∷◌, ◌++◌, arith, Text, text_eq, any, filter, update_where,
  text_eq_comm,
}

-- Generic facts on a table whose rows are told apart by a text.
module _ {Row : Type 0} (key : Row → Text) where
  abbrev pub has_key : Text → List Row → Bool
  has_key k = any (λ (r : Row). text_eq (key r) k)

  abbrev pub Distinct : List Row → Type 0
  Distinct [] = Unit
  Distinct (r ∷ rs) = (has_key (key r) rs ≡ false) × Distinct rs

  pub has_key-update_where :
      (here : Row → Bool) (f : Row → Row) (k : Text) (rs : List Row)
      → ((r : Row) → key (f r) ≡ key r)
      → has_key k (update_where here f rs) ≡ has_key k rs
  has_key-update_where here f k [] keeps = refl
  has_key-update_where here f k (r ∷ rs) keeps =
      ground (arith, keeps r, has_key-update_where here f k rs keeps)

  pub Distinct-update_where :
      (here : Row → Bool) (f : Row → Row) (rs : List Row)
      → ((r : Row) → key (f r) ≡ key r)
      → Distinct rs
      → Distinct (update_where here f rs)
  Distinct-update_where here f [] keeps h = tt
  Distinct-update_where here f (r ∷ rs) keeps h = ground (
    arith,
    keeps r,
    has_key-update_where here f (key r) rs keeps,
    Distinct-update_where here f rs keeps h.1,
  )

  has_key-append :
      (k : Text) (rs : List Row) (new : Row)
      → has_key k rs ≡ false
      → text_eq (key new) k ≡ false
      → has_key k (rs ++ new ∷ []) ≡ false
  has_key-append k [] new h e = ground arith
  has_key-append k (r ∷ rs) new h e = ground (arith, has_key-append k rs new)

  pub Distinct-append :
      (rs : List Row) (new : Row)
      → has_key (key new) rs ≡ false
      → Distinct rs
      → Distinct (rs ++ new ∷ [])
  Distinct-append [] new h d = (refl, tt)
  Distinct-append (r ∷ rs) new h d = (
    has_key-append (key r) rs new d.0 (ground (arith, text_eq_comm (key new) (key r))),
    Distinct-append rs new (ground arith) d.1,
  )

  has_key-filter :
      (p : Row → Bool) (k : Text) (rs : List Row)
      → has_key k rs ≡ false
      → has_key k (filter p rs) ≡ false
  has_key-filter p k [] h = refl
  has_key-filter p k (r ∷ rs) h = ground (arith, has_key-filter p k rs)

  pub Distinct-filter : (p : Row → Bool) (rs : List Row) → Distinct rs → Distinct (filter p rs)
  Distinct-filter p [] d = tt
  Distinct-filter p (r ∷ rs) d =
      ground (arith, has_key-filter p (key r) rs d.0, Distinct-filter p rs d.1)
