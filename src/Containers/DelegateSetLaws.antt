-- ===== src/Containers/DelegateSetLaws.antt =====
-- What `DelegateVectorSet` of libjarl/delegate_vector_set.h does with a key that it does not have.
use jarl.Common.{
  ℕ, zero, suc, ◌+◌, ◌-◌, ◌<◌, ◌≡◌, refl, ap, arith, Bool, false, List, [], ◌∷◌, ◌++◌, none, some,
  ltb, ltb-false, length, take, take-length, length-push, get_elem?-push_at, All,
}
use jarl.Common.Outcome.{fault}
use jarl.Containers.VectorSet.{index_of}
use jarl.Containers.DelegateSet.{size, at, scan, find_key, subscript, insert, emplace}

module _ {ℓ} {K : Type ℓ} (comp : K → K → Bool) where
  -- No key of the vector compares equal.
  abbrev pub Lacks : K → List K → Type 0
  Lacks key m = All (λ x. comp x key ≡ false) m

  scan-past :
      (n : ℕ) (m : List K) (key : K) → Lacks key m → length m < n → scan comp n m key ≡ fault
  unfolding scan
  scan-past zero m key a h = absurd (omega arith)
  scan-past (suc n) [] key a h = refl
  scan-past (suc n) (x ∷ m) key (e, a) h = rw (e, scan-past n m key a (omega arith)) refl

  index_of-none : (m : List K) (key : K) → Lacks key m → index_of comp m key ≡ none
  unfolding index_of
  index_of-none [] key a = refl
  index_of-none (x ∷ m) key (e, a) = rw (e, index_of-none m key a) refl

  emplace-new :
      (key : K) (m : List K) (delegate : List (List K))
      → Lacks key m
      → emplace comp key m delegate ≡ ((m ++ (key ∷ [])) ∷ delegate, size comp delegate + length m)
  unfolding emplace size
  emplace-new key m delegate a = rw (emplace, kept, absent, size, grown) refl
    where
      kept : take (length m) (m ++ (key ∷ [])) ≡ m
      kept = take-length m (key ∷ [])

      absent : index_of comp m key ≡ none
      absent = index_of-none m key a

      grown : size comp delegate + length (m ++ (key ∷ [])) - 1 ≡ size comp delegate + length m
      grown = omega (arith, length-push m key)

  -- On a set with a delegate that is not empty, and whose own vector does not have the key,
  -- `operator[]` and `insert` read past the end of this vector, where `emplace` puts the key at the
  -- end, and returns the size before, which is where `at` finds the key.
  pub insert-past_end :
      (key : K) (m : List K) (delegate : List (List K))
      → Lacks key m
      → 0 < size comp delegate
      → (subscript comp (m ∷ delegate) key ≡ fault)
        × (insert comp key m delegate ≡ fault)
        × ((emplace comp key m delegate).1 ≡ size comp (m ∷ delegate))
        × (at comp ((emplace comp key m delegate).0) ((emplace comp key m delegate).1) ≡ some key)
  unfolding subscript insert find_key size at
  insert-past_end key m delegate a h = (
    rw past refl,
    rw past refl,
    ap (λ (r : List (List K) × ℕ). r.1) placed,
    rw (placed, above, own) (get_elem?-push_at m key),
  )
    where
      past : scan comp (size comp delegate + length m) m key ≡ fault
      past = scan-past _ m key a (omega arith)

      placed :
          emplace comp key m delegate
          ≡ ((m ++ (key ∷ [])) ∷ delegate, size comp delegate + length m)
      placed = emplace-new key m delegate a

      above : ltb (size comp delegate + length m) (size comp delegate) ≡ false
      above = ltb-false _ _ (omega arith)

      own : size comp delegate + length m - size comp delegate ≡ length m
      own = omega arith
