-- ===== src/Containers/VectorSet.antt =====
-- libjarl/vector_set.h: `VectorSet`, a vector of keys that its `Comp` tells apart.
use jarl.Common.{Bool, ℕ, suc, List, [], ◌∷◌, ◌++◌, Option, none, some, if◌then◌else◌, length, take}
use mathlib.Core.Option

module _ {ℓ} {K : Type ℓ} (comp : K → K → Bool) where
  -- `operator[]`, where -1 is `none`.
  unfoldable pub index_of : List K → K → Option ℕ
  index_of [] key = none
  index_of (x ∷ xs) key =
      let rest = index_of xs key in if comp x key then some 0 else Option.map (λ i. suc i) rest

  unfoldable pub insert : K → List K → List K × ℕ
  insert key xs = elim (index_of xs key) [ none ↦ (xs ++ (key ∷ []), length xs) | some i ↦ (xs, i) ]

  -- The key is put at the end, looked up before it, and taken out again if it is found.
  unfoldable pub emplace : K → List K → List K × ℕ
  emplace key xs =
      let pushed = xs ++ (key ∷ []) in
      elim (index_of (take (length xs) pushed) key) [
        | none ↦ (pushed, length xs)
        | some i ↦ (take (length xs) pushed, i)
      ]
