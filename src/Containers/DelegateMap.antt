-- ===== src/Containers/DelegateMap.antt =====
-- libjarl/delegate_map.h: `DelegateMap` over `VectorMap`, a map that hands on what it does not find.
-- A chain is the list of its maps, the own one first; an iterator is the place of the map in the
-- chain and of the entry in the map.
use jarl.Common.{ℕ, suc, List, [], ◌∷◌, Option, none, some}
use jarl.Containers.Comp.{Comp}
use jarl.Containers.VectorMap
use jarl.Containers.VectorMap.{Entry}

module _ {ℓ κ} {K : Type ℓ} {V : Type κ} (c : Comp K) where
  -- With no delegate, the end of the own map is returned.
  unfoldable pub find : List (List (Entry K V)) → K → Option (ℕ × ℕ)
  find [] key = none
  find (m ∷ delegate) key =
      let del_it = find delegate key in
      elim (VectorMap.find c m key) [
        | some i ↦ some (0, i)
        | none ↦ elim del_it [ none ↦ none | some it ↦ some (suc it.0, it.1) ]
      ]

  -- `this->map_.insert(std::make_pair(key, mapped_type())).first->second`
  unfoldable pub insert_initial :
      V → K → List (Entry K V) → List (List (Entry K V)) → List (List (Entry K V)) × (ℕ × ℕ)
  insert_initial initial key m delegate =
      let r = VectorMap.insert c (record { first = key; second = initial }) m in
      (r.0 ∷ delegate, (0, r.1))

  -- `operator[]` looks into the own map of the delegate, and no further.
  unfoldable pub subscript :
      V → K → List (Entry K V) → List (List (Entry K V)) → List (List (Entry K V)) × (ℕ × ℕ)
  unfolding insert_initial
  subscript initial key m [] = elim (VectorMap.find c m key) [
    | some i ↦ (m ∷ [], (0, i))
    | none ↦ insert_initial initial key m []
  ]
  subscript initial key m (d ∷ delegate) = elim (VectorMap.find c m key) [
    | some i ↦ (m ∷ d ∷ delegate, (0, i))
    | none ↦ elim (VectorMap.find c d key) [
      | some i ↦ (m ∷ d ∷ delegate, (1, i))
      | none ↦ insert_initial initial key m (d ∷ delegate)
    ]
  ]
