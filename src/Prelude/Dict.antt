-- ===== src/Prelude/Dict.antt =====
-- Go maps with string keys, as association lists. A Go map has no order: what the tools make of an
-- iteration is sorted, or does not depend on the order.
use mathlib.Core.Path.{◌≡◌, refl}
use mathlib.Core.List.{List, [], ◌∷◌}
use mathlib.Core.Option.{Option, none, some}
use native.Mathlib.Omega.{arith}
use bcpfs.Prelude.Tests.{if◌then◌else◌}
use bcpfs.Prelude.Bytes.{Bytes, beq, beq_iff}

abbrev pub Dict {ℓ} : Type ℓ → Type ℓ
Dict V = List (Bytes × V)

module _ {ℓ} {V : Type ℓ} where
  -- v, ok := m[k]
  unfoldable pub get : Dict V → Bytes → Option V
  get [] k = none
  get ((j, v) ∷ m) k = if beq j k then some v else get m k

  -- m[k] = v
  unfoldable pub put : Dict V → Bytes → V → Dict V
  put [] k v = (k, v) ∷ []
  put ((j, w) ∷ m) k v = if beq j k then (k, v) ∷ m else (j, w) ∷ put m k v

  -- delete(m, k)
  unfoldable pub remove : Dict V → Bytes → Dict V
  remove [] k = []
  remove ((j, w) ∷ m) k = let rest = remove m k in if beq j k then rest else (j, w) ∷ rest

  pub get-put :
      (m : Dict V) (k : Bytes) (v : V) (j : Bytes)
      → get (put m k v) j ≡ (if beq k j then some v else get m j)
  unfolding get put
  get-put [] k v j = refl
  get-put ((i, w) ∷ m) k v j =
      ground (arith, beq_iff k j, beq_iff i k, beq_iff i j, get-put m k v j)

  pub get-remove :
      (m : Dict V) (k j : Bytes) → get (remove m k) j ≡ (if beq k j then none else get m j)
  unfolding get remove
  get-remove [] k j = ground arith
  get-remove ((i, w) ∷ m) k j =
      ground (arith, beq_iff k j, beq_iff i k, beq_iff i j, get-remove m k j)
