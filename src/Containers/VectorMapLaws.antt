-- ===== src/Containers/VectorMapLaws.antt =====
-- What `VectorMap` of libjarl/vector_map.h guarantees.
use mathlib.Core.Option
use mathlib.Core.Path.{subst}
use jarl.Common.{
  ℕ, suc, ◌≡◌, refl, sym, ap, ◌∙◌, Bool, true, false, List, [], ◌∷◌, ◌++◌, Option, none, some,
  if◌then◌else◌, length, get_elem?, get_elem?-push_at, Bool-cases, inl, inr,
}
use jarl.Containers.Comp.{Comp}
use jarl.Containers.VectorMap.{Entry, find, assign, insert, subscript}

if_same {κ} :
    {B : Type κ} (b : Bool) (x y z : B)
    → (if b then x else z) ≡ (if b then x else if b then y else z)
if_same true x y z = refl
if_same false x y z = refl

module _ {ℓ} {K : Type ℓ} (c : Comp K) where
  open c use {comp, lawful}

  comp_trans-false : (a key k : K) → comp a key ≡ false → comp a k ≡ true → comp key k ≡ false
  comp_trans-false a key k f t = elim (Bool-cases (comp key k)) [
    | inl u ↦ absurd (contra ((lawful a k).0 t ∙ sym ((lawful key k).0 u)))
    | inr n ↦ n
  ]
    where
      contra : a ≡ key → ⊥
      contra e = let t = (lawful a key).1 e in cc

  comp_refl : (a : K) → comp a a ≡ true
  comp_refl a = (lawful a a).1 refl

  -- Two tests for different keys can be made in either order.
  if_swap {κ} :
      {B : Type κ} (a key k : K) (x y z : B)
      → comp a key ≡ false
      → (if comp a k then x else if comp key k then y else z)
        ≡ (if comp key k then y else if comp a k then x else z)
  if_swap a key k x y z f = elim (Bool-cases (comp a k)) [
    | inl t ↦ rw (t, comp_trans-false a key k f t) refl
    | inr n ↦ rw n refl
  ]

abbrev pub is_none {ℓ} : {A : Type ℓ} → Option A → Bool
is_none none = true
is_none (some _) = false

module _ {ℓ κ} {K : Type ℓ} {V : Type κ} (c : Comp K) where
  open c use {comp, lawful}

  -- The map that a vector of entries stands for.
  unfoldable pub lookup : List (Entry K V) → K → Option V
  lookup [] key = none
  lookup (e ∷ es) key = if comp e.first key then some e.second else lookup es key

  -- What `find` ends with: an index of an entry with the key, of which the value can be changed, or
  -- the key is in no entry, and an entry with it can be put at the end.
  pub data Found (m : List (Entry K V)) (key : K) : Option ℕ → Type (ℓ ⊔ κ) where
    absent :
        lookup m key ≡ none
        → ((v : V) (k : K)
            → lookup (m ++ (record { first = key; second = v } ∷ [])) k
              ≡ (if comp key k then some v else lookup m k))
        → Found m key none
    at :
        {i : ℕ} (v : V)
        → lookup m key ≡ some v
        → get_elem? m i ≡ some (record { first = key; second = v })
        → ((w : V) (k : K)
            → lookup (assign c i w m) k ≡ (if comp key k then some w else lookup m k))
        → ((w : V) → get_elem? (assign c i w m) i ≡ some (record { first = key; second = w }))
        → Found m key (some i)

  find-hit :
      (e : Entry K V) (es : List (Entry K V)) (key : K)
      → comp e.first key ≡ true
      → find c (e ∷ es) key ≡ some 0
  unfolding find
  find-hit e es key h = rw h refl

  find-miss :
      (e : Entry K V) (es : List (Entry K V)) (key : K) (o : Option ℕ)
      → comp e.first key ≡ false
      → find c es key ≡ o
      → find c (e ∷ es) key ≡ Option.map (λ i. suc i) o
  unfolding find
  find-miss e es key o h q = rw h (ap (λ (p : Option ℕ). Option.map (λ (i : ℕ). suc i) p) q)

  nil-Found : (key : K) → Found [] key (find {V = V} c [] key)
  unfolding find lookup
  nil-Found key = absent refl (λ v k. refl)

  hit-Found : (e : Entry K V) (es : List (Entry K V)) → Found (e ∷ es) e.first (some 0)
  unfolding lookup assign
  hit-Found e es =
      at e.second (rw (comp_refl c e.first) refl) refl
        (λ w k. if_same (comp e.first k) (some w) (some e.second) (lookup es k)) (λ w. refl)

  miss-Found :
      (e : Entry K V) (es : List (Entry K V)) (key : K) (o : Option ℕ)
      → comp e.first key ≡ false
      → Found es key o
      → Found (e ∷ es) key (Option.map (λ i. suc i) o)
  unfolding lookup assign
  miss-Found e es key none f (absent n p) =
      absent (rw (f, n) refl)
        (λ v k. rw (p v k) (if_swap c e.first key k (some e.second) (some v) (lookup es k) f))
  miss-Found e es key (some i) f (at v l g a b) =
      at v (rw (f, l) refl) g
        (λ w k. rw (a w k) (if_swap c e.first key k (some e.second) (some w) (lookup es k) f)) b

  pub find-Found : (m : List (Entry K V)) (key : K) → Found m key (find c m key)
  find-Found [] key = nil-Found key
  find-Found (e ∷ es) key = elim (Bool-cases (comp e.first key)) [
    | inl t ↦
        rw (find-hit e es key t)
          (subst (λ (k : K). Found (e ∷ es) k (some 0)) ((lawful e.first key).0 t) (hit-Found e es))
    | inr f ↦
        rw (find-miss e es key (find c es key) f refl)
          (miss-Found e es key (find c es key) f (find-Found es key))
  ]

  -- What is in the map after the entry of a key was set to `v`, at the index `i`.
  pub record Sets (m : List (Entry K V)) (key : K) (v : V) (after : List (Entry K V)) (i : ℕ)
      : Type (ℓ ⊔ κ) where
    pub others : (k : K) → lookup after k ≡ (if comp key k then some v else lookup m k)
    pub place : get_elem? after i ≡ some (record { first = key; second = v })

  Found-Sets :
      (m : List (Entry K V)) (e : Entry K V) (o : Option ℕ)
      → Found m e.first o
      → (r : List (Entry K V) × ℕ × Bool)
      → r ≡ elim o [
        | none ↦ (m ++ (e ∷ []), length m, true)
        | some i ↦ (assign c i e.second m, i, false)
      ]
      → Sets m e.first e.second (r.0) (r.1) × (r.2 ≡ is_none (lookup m e.first))
  Found-Sets m e none (absent n p) r q =
      rw q (record { others = p e.second; place = get_elem?-push_at m e }, rw n refl)
  Found-Sets m e (some i) (at v l g a b) r q =
      rw q (record { others = a e.second; place = b e.second }, rw l refl)

  lookup-kept :
      (m : List (Entry K V)) (key k : K) (v : V)
      → lookup m key ≡ some v
      → lookup m k ≡ (if comp key k then some v else lookup m k)
  lookup-kept m key k v l = elim (Bool-cases (comp key k)) [
    | inl t ↦ rw t (ap (λ (x : K). lookup m x) (sym ((lawful key k).0 t)) ∙ l)
    | inr f ↦ rw f refl
  ]

  Found-kept :
      (initial : V) (m : List (Entry K V)) (key : K) (o : Option ℕ)
      → Found m key o
      → (r : List (Entry K V) × ℕ)
      → r ≡ elim o [
        | none ↦ (m ++ (record { first = key; second = initial } ∷ []), length m)
        | some i ↦ (m, i)
      ]
      → Sets m key (Option.get_or (lookup m key) initial) (r.0) (r.1)
  Found-kept initial m key none (absent n p) r q =
      rw (q, n)
        (record {
          others = p initial;
          place = get_elem?-push_at m (record { first = key; second = initial });
        })
  Found-kept initial m key (some i) (at v l g a b) r q =
      rw (q, l) (record { others = λ k. lookup-kept m key k v l; place = g })

  -- `insert` sets the value of the key, at the index that it returns, and of no other key, and tells
  -- whether the key is new.
  pub insert-Sets :
      (e : Entry K V) (m : List (Entry K V))
      → Sets m e.first e.second ((insert c e m).0) ((insert c e m).1)
        × ((insert c e m).2 ≡ is_none (lookup m e.first))
  unfolding insert
  insert-Sets e m = Found-Sets m e (find c m e.first) (find-Found m e.first) (insert c e m) refl

  -- `operator[]` gives the index of an entry of the key with the value that it has, or with `Val()`
  -- if it has none, and changes the value of no other key.
  pub subscript-Sets :
      (initial : V) (key : K) (m : List (Entry K V))
      → Sets m key
          (Option.get_or (lookup m key) initial)
          ((subscript c initial key m).0)
          ((subscript c initial key m).1)
  unfolding subscript
  subscript-Sets initial key m =
      Found-kept initial m key (find c m key) (find-Found m key) (subscript c initial key m) refl
