-- ===== src/Containers/VectorMap.antt =====
-- libjarl/vector_map.h: `VectorMap`, a vector of entries with different keys. An iterator, and a
-- reference to a value, is the index of its entry; `end()` is `none`.
use mathlib.Core.Option
use jarl.Common.{
  ℕ, zero, suc, Bool, true, false, List, [], ◌∷◌, ◌++◌, Option, none, some, if◌then◌else◌, length,
}
use jarl.Containers.Comp.{Comp}

-- `std::pair<const Key, Val>`
pub record Entry {ℓ κ} (K : Type ℓ) (V : Type κ) : Type (ℓ ⊔ κ) where
  pub first : K
  pub second : V

module _ {ℓ κ} {K : Type ℓ} {V : Type κ} (c : Comp K) where
  open c use {comp}

  unfoldable pub find : List (Entry K V) → K → Option ℕ
  find [] key = none
  find (e ∷ es) key =
      let rest = find es key in if comp e.first key then some 0 else Option.map (λ i. suc i) rest

  -- `it->second = val`
  unfoldable pub assign : ℕ → V → List (Entry K V) → List (Entry K V)
  assign i val [] = []
  assign zero val (e ∷ es) = record { first = e.first; second = val } ∷ es
  assign (suc i) val (e ∷ es) = e ∷ assign i val es

  unfoldable pub insert : Entry K V → List (Entry K V) → List (Entry K V) × ℕ × Bool
  insert val m = elim (find m val.first) [
    | none ↦ (m ++ (val ∷ []), length m, true)
    | some i ↦ (assign i val.second m, i, false)
  ]

  -- `operator[]`; `initial` is the value `Val()`.
  unfoldable pub subscript : V → K → List (Entry K V) → List (Entry K V) × ℕ
  subscript initial key m = elim (find m key) [
    | none ↦ (m ++ (record { first = key; second = initial } ∷ []), length m)
    | some i ↦ (m, i)
  ]
