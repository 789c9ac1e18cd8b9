-- ===== src/Containers/VectorSetLaws.antt =====
-- What `VectorSet` of libjarl/vector_set.h guarantees.
use mathlib.Core.Option
use jarl.Common.{
  ℕ, suc, ◌≡◌, ◌≢◌, ◌⊎◌, inl, inr, refl, sym, ap, true, false, List, [], ◌∷◌, ◌++◌, Option, none,
  some, length, get_elem?, get_elem?-push_at, take-length, All, Bool-cases,
}
use jarl.Containers.Comp.{Comp}
use jarl.Containers.VectorSet.{index_of, insert, emplace}

abbrev pub Lacks {ℓ} : {K : Type ℓ} → K → List K → Type ℓ
Lacks key xs = All (λ x. x ≢ key) xs

abbrev pub Unique {ℓ} : {K : Type ℓ} → List K → Type ℓ
Unique [] = Unit
Unique (x ∷ xs) = Lacks x xs × Unique xs

pub data Looks {ℓ} {K : Type ℓ} (key : K) (xs : List K) : Option ℕ → Type ℓ where
  missing : Lacks key xs → Looks key xs none
  present : {i : ℕ} → get_elem? xs i ≡ some key → Looks key xs (some i)

-- What an insertion gives: the key stands at the index, the other keys are where they were, and a
-- key that was there is not put in again.
pub record Inserted {ℓ} {K : Type ℓ} (key : K) (xs : List K) (r : List K × ℕ) : Type ℓ where
  pub held : get_elem? (r.0) (r.1) ≡ some key
  pub change : (r.0 ≡ xs) ⊎ ((r.0 ≡ xs ++ (key ∷ [])) × Lacks key xs)
  pub unique : Unique (r.0)

module _ {ℓ} {K : Type ℓ} where
  Lacks-push : (k y : K) (xs : List K) → Lacks k xs → y ≢ k → Lacks k (xs ++ (y ∷ []))
  Lacks-push k y [] a n = (n, tt)
  Lacks-push k y (x ∷ xs) (h, a) n = (h, Lacks-push k y xs a n)

  Unique-push : (xs : List K) (y : K) → Unique xs → Lacks y xs → Unique (xs ++ (y ∷ []))
  Unique-push [] y u a = (tt, tt)
  Unique-push (x ∷ xs) y (h, u) (n, a) =
      (Lacks-push x y xs h (λ e. n (sym e)), Unique-push xs y u a)

module _ {ℓ} {K : Type ℓ} (c : Comp K) where
  open c use {comp, lawful}

  index_of-hit :
      (x : K) (xs : List K) (key : K) → comp x key ≡ true → index_of comp (x ∷ xs) key ≡ some 0
  unfolding index_of
  index_of-hit x xs key h = rw h refl

  index_of-miss :
      (x : K) (xs : List K) (key : K) (o : Option ℕ)
      → comp x key ≡ false
      → index_of comp xs key ≡ o
      → index_of comp (x ∷ xs) key ≡ Option.map (λ i. suc i) o
  unfolding index_of
  index_of-miss x xs key o h e = rw h (ap (λ (p : Option ℕ). Option.map (λ (i : ℕ). suc i) p) e)

  ne_of_comp : (x key : K) → comp x key ≡ false → x ≢ key
  ne_of_comp x key h e = let t = (lawful x key).1 e in cc

  -- The look-up gives an index at which the key stands, or finds none where it stands nowhere.
  index_of-Looks : (xs : List K) (key : K) → Looks key xs (index_of comp xs key)
  index_of-Looks [] key = empty_lem key
    where
      empty_lem : (key : K) → Looks key [] (index_of comp [] key)
      empty_lem key = unfold index_of in missing tt
  index_of-Looks (x ∷ xs) key = elim (Bool-cases (comp x key)) [
    | inl t ↦
        rw (index_of-hit x xs key t)
          (present (ap {B = Option K} (λ y. some y) ((lawful x key).0 t)))
    | inr f ↦ later f (index_of comp xs key) refl (index_of-Looks xs key)
  ]
    where
      later :
          comp x key ≡ false
          → (o : Option ℕ) → index_of comp xs key ≡ o
          → Looks key xs o
          → Looks key (x ∷ xs) (index_of comp (x ∷ xs) key)
      later f none e (missing a) =
          rw (index_of-miss x xs key none f e) (missing (ne_of_comp x key f, a))
      later f (some i) e (present p) = rw (index_of-miss x xs key (some i) f e) (present p)

  Looks-Inserted :
      (xs : List K) (key : K) (o : Option ℕ)
      → Looks key xs o
      → Unique xs
      → Inserted key xs (elim o [ none ↦ (xs ++ (key ∷ []), length xs) | some i ↦ (xs, i) ])
  Looks-Inserted xs key none (missing a) u = record {
    held = get_elem?-push_at xs key;
    change = inr (refl, a);
    unique = Unique-push xs key u a;
  }
  Looks-Inserted xs key (some i) (present p) u = record { held = p; change = inl refl; unique = u }

  -- Inserting a key in a set without duplicates returns an index at which the key stands, moves no
  -- key, adds the key at the end exactly if it is not there, and leaves the set without duplicates.
  pub insert-Inserted : (key : K) (xs : List K) → Unique xs → Inserted key xs (insert comp key xs)
  unfolding insert
  insert-Inserted key xs u = Looks-Inserted xs key (index_of comp xs key) (index_of-Looks xs key) u

  -- `emplace` does what `insert` does.
  pub emplace-insert : (key : K) (xs : List K) → emplace comp key xs ≡ insert comp key xs
  unfolding emplace insert
  emplace-insert key xs =
      ap
        (λ (l : List K). elim (index_of comp l key) [
          | none ↦ (xs ++ (key ∷ []), length xs)
          | some i ↦ (l, i)
        ])
        (take-length xs (key ∷ []))
