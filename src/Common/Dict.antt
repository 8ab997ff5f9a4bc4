-- ===== src/Common/Dict.antt =====
-- Python's `dict`, over any type of keys with an equality. The program reads no order from a dict.
use mathlib.Core.Path.{◌≡◌}
use mathlib.Core.Option.{Option, none, some}
use mathlib.Core.List.{List, [], ◌∷◌}
use native.Mathlib.Omega.{arith}
use sockpost.Common.Tests.{if◌then◌else◌, Eq}

abbrev pub Dict {ℓ κ} : Type ℓ → Type κ → Type (ℓ ⊔ κ)
Dict K V = List (K × V)

module _ {ℓ κ} {K : Type ℓ} {V : Type κ} ⦃e : Eq K⦄ where
  -- d.get(k)
  unfoldable pub get : K → Dict K V → Option V
  get k [] = none
  get k ((j, v) ∷ d) = if e.beq j k then some v else get k d

  -- d.pop(k, None)
  unfoldable pub remove : K → Dict K V → Dict K V
  remove k [] = []
  remove k ((j, v) ∷ d) = let rest = remove k d in if e.beq j k then rest else (j, v) ∷ rest

  -- d[k] = v
  unfoldable pub put : K → V → Dict K V → Dict K V
  unfolding remove
  put k v d = (k, v) ∷ remove k d

  pub get-remove :
      (k j : K) (d : Dict K V) → get j (remove k d) ≡ (if e.beq k j then none else get j d)
  unfolding get remove
  get-remove k j [] = ground arith
  get-remove k j ((i, v) ∷ d) =
      ground (arith, get-remove k j d, e.beq_iff i k, e.beq_iff i j, e.beq_iff k j)

  pub get-put :
      (k j : K) (v : V) (d : Dict K V) → get j (put k v d) ≡ (if e.beq k j then some v else get j d)
  unfolding get put
  get-put k j v d = ground (arith, get-remove k j d)

  pub get-put_self : (k : K) (v : V) (d : Dict K V) → get k (put k v d) ≡ some v
  get-put_self k v d = ground (arith, get-put k k v d, e.beq_iff k k)

  pub get-remove_self : (k : K) (d : Dict K V) → get k (remove k d) ≡ none
  get-remove_self k d = ground (arith, get-remove k k d, e.beq_iff k k)
