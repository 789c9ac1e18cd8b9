-- ===== src/Containers/DelegateSet.antt =====
-- libjarl/delegate_vector_set.h: `DelegateVectorSet`, a set that counts on from another one. A chain is
-- the list of its vectors, the own one first; -1 is `none`.
use jarl.Common.{
  ℕ, zero, suc, ◌+◌, ◌-◌, Bool, List, [], ◌∷◌, ◌++◌, Option, none, some, if◌then◌else◌, ltb, length,
  get_elem?, take,
}
use mathlib.Core.Option
use jarl.Common.Outcome
use jarl.Common.Outcome.{Outcome, ok, fault}
use jarl.Containers.VectorSet.{index_of}

module _ {ℓ} {K : Type ℓ} (comp : K → K → Bool) where
  -- `size()`, which counts the keys of the delegate too.
  unfoldable pub size : List (List K) → ℕ
  size [] = 0
  size (m ∷ delegate) = size delegate + length m

  -- `at()`, of an index from 0 on.
  unfoldable pub at : List (List K) → ℕ → Option K
  unfolding size
  at [] idx = none
  at (m ∷ delegate) idx =
      let deeper = at delegate idx in
      if ltb idx (size delegate) then deeper else get_elem? m (idx - size delegate)

  -- The loop of `findKey_` and of `operator[]` over the own vector, of which `n` rounds are left.
  unfoldable pub scan : ℕ → List K → K → Outcome (Option ℕ)
  scan zero xs key = ok none
  scan (suc n) [] key = fault
  scan (suc n) (x ∷ xs) key =
      let rest = scan n xs key in
      if comp x key then ok (some 0) else Outcome.bind rest (λ r. ok (Option.map (λ i. suc i) r))

  unfoldable pub find_key : K → List K → List (List K) → Outcome (Option ℕ)
  unfolding size scan
  find_key key m delegate = scan (size (m ∷ delegate)) m key

  -- `operator[]`
  unfoldable pub subscript : List (List K) → K → Outcome (Option ℕ)
  unfolding find_key
  subscript [] key = ok none
  subscript (m ∷ delegate) key =
      let deeper = subscript delegate key in
      Outcome.bind (find_key key m delegate)
        (λ r. elim r [ none ↦ deeper | some i ↦ ok (some (i + size delegate)) ])

  unfoldable pub insert : K → List K → List (List K) → Outcome (List (List K) × ℕ)
  unfolding find_key
  insert key m delegate = Outcome.bind (find_key key m delegate) (λ r. elim r [
    | none ↦ let grown = (m ++ (key ∷ [])) ∷ delegate in ok (grown, size grown - 1)
    | some i ↦ ok (m ∷ delegate, size delegate + i)
  ])

  -- The key is put at the end, looked up before it, and taken out again if it is found.
  unfoldable pub emplace : K → List K → List (List K) → List (List K) × ℕ
  unfolding size
  emplace key m delegate =
      let pushed = m ++ (key ∷ []) in
      elim (index_of comp (take (length m) pushed) key) [
        | none ↦ (pushed ∷ delegate, size (pushed ∷ delegate) - 1)
        | some i ↦ (take (length m) pushed ∷ delegate, size delegate + i)
      ]
