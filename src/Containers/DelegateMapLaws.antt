-- ===== src/Containers/DelegateMapLaws.antt =====
-- A chain of maps of libjarl/delegate_map.h against the one map of all its entries.
use mathlib.Core.Option
use jarl.Common.{
  ℕ, zero, suc, ◌≡◌, refl, ap, ◌∙◌, Bool, true, false, List, [], ◌∷◌, ◌++◌, Option, none, some,
  if◌then◌else◌, get_elem?,
}
use jarl.Containers.Comp.{Comp}
use jarl.Containers.VectorMap
use jarl.Containers.VectorMap.{Entry}
use jarl.Containers.VectorMapLaws.{lookup, Found, absent, at, find-Found, insert-Sets}
use jarl.Containers.DelegateMap.{find, subscript, insert_initial}

module _ {κ} {V : Type κ} where
  abbrev or_else : Option V → Option V → Option V
  or_else none o = o
  or_else (some v) o = some v

  if_or_else :
      (b : Bool) (v : V) (x y : Option V)
      → (if b then some v else or_else x y) ≡ or_else (if b then some v else x) y
  if_or_else true v x y = refl
  if_or_else false v x y = refl

module _ {ℓ κ} {K : Type ℓ} {V : Type κ} where
  abbrev pub entries : List (List (Entry K V)) → List (Entry K V)
  entries [] = []
  entries (m ∷ ms) = m ++ entries ms

  -- What an iterator stands for.
  abbrev pub entry_at : List (List (Entry K V)) → ℕ → ℕ → Option (Entry K V)
  entry_at [] d i = none
  entry_at (m ∷ ms) zero i = get_elem? m i
  entry_at (m ∷ ms) (suc d) i = entry_at ms d i

  abbrev pub nearest : List (List (Entry K V)) → List (Entry K V)
  nearest [] = []
  nearest (d ∷ _) = d

module _ {ℓ κ} {K : Type ℓ} {V : Type κ} (c : Comp K) where
  open c use {comp, lawful}

  -- The iterator is at the entry that the map of all the entries has for the key, if it has one.
  pub data Located (ms : List (List (Entry K V))) (key : K) : Option (ℕ × ℕ) → Type (ℓ ⊔ κ) where
    nowhere : lookup c (entries ms) key ≡ none → Located ms key none
    found :
        (d i : ℕ) (v : V)
        → lookup c (entries ms) key ≡ some v
        → entry_at ms d i ≡ some (record { first = key; second = v })
        → Located ms key (some (d, i))

  lookup-append :
      (m n : List (Entry K V)) (key : K)
      → lookup c (m ++ n) key ≡ or_else (lookup c m key) (lookup c n key)
  unfolding lookup
  lookup-append [] n key = refl
  lookup-append (e ∷ m) n key =
      rw (lookup-append m n key)
        (if_or_else (comp e.first key) e.second (lookup c m key) (lookup c n key))

  lookup-none :
      (m n : List (Entry K V)) (key : K)
      → lookup c m key ≡ none
      → lookup c (m ++ n) key ≡ lookup c n key
  lookup-none m n key h =
      lookup-append m n key ∙ ap (λ (o : Option V). or_else o (lookup c n key)) h

  lookup-some :
      (m n : List (Entry K V)) (key : K) (v : V)
      → lookup c m key ≡ some v
      → lookup c (m ++ n) key ≡ some v
  lookup-some m n key v h =
      lookup-append m n key ∙ ap (λ (o : Option V). or_else o (lookup c n key)) h

  lookup-nil : (key : K) → lookup {V = V} c [] key ≡ none
  unfolding lookup
  lookup-nil key = refl

  Found-Located :
      (m : List (Entry K V)) (ms : List (List (Entry K V))) (key : K) (o : Option ℕ)
      (del_it : Option (ℕ × ℕ))
      → Found c m key o
      → Located ms key del_it
      → Located (m ∷ ms) key (elim o [
        | some i ↦ some (0, i)
        | none ↦ elim del_it [ none ↦ none | some it ↦ some (suc it.0, it.1) ]
      ])
  Found-Located m ms key none none (absent n p) (nowhere l) =
      nowhere (lookup-none m (entries ms) key n ∙ l)
  Found-Located m ms key none (some _) (absent n p) (found d i v l g) =
      found (suc d) i v (lookup-none m (entries ms) key n ∙ l) g
  Found-Located m ms key (some i) del_it (at v l g a b) q =
      found 0 i v (lookup-some m (entries ms) key v l) g

  -- `find` looks through the whole chain: it ends at the entry that one map of all the entries,
  -- those of the own map first, has for the key, and at the end if there is none.
  pub find-Located : (ms : List (List (Entry K V))) (key : K) → Located ms key (find c ms key)
  unfolding find
  find-Located [] key = nowhere (lookup-nil key)
  find-Located (m ∷ ms) key =
      Found-Located m ms key (VectorMap.find c m key) (find c ms key) (find-Found c m key)
        (find-Located ms key)

  -- The place that is returned holds `v` for the key, and so does the map of all the entries.
  pub record Holds (key : K) (v : V) (r : List (List (Entry K V)) × (ℕ × ℕ)) : Type (ℓ ⊔ κ) where
    pub place : entry_at (r.0) (r.1.0) (r.1.1) ≡ some (record { first = key; second = v })
    pub value : lookup c (entries (r.0)) key ≡ some v

  insert_initial-Holds :
      (initial : V) (key : K) (m : List (Entry K V)) (ms : List (List (Entry K V)))
      → lookup c m key ≡ none
      → Holds key initial (insert_initial c initial key m ms)
  unfolding insert_initial
  insert_initial-Holds initial key m ms h =
      let e : Entry K V = record { first = key; second = initial } in
      let s = (insert-Sets c e m).0 in
      let own = s.others key ∙ rw ((lawful key key).1 refl) refl in
      record {
        place = s.place;
        value = lookup-some ((VectorMap.insert c e m).0) (entries ms) key initial own;
      }

  -- The three ends of `operator[]`: in the own map, in the delegate's, and in a new entry.
  own-Holds :
      (initial v : V) (key : K) (m n : List (Entry K V)) (ms : List (List (Entry K V))) (i : ℕ)
      → lookup c m key ≡ some v
      → get_elem? m i ≡ some (record { first = key; second = v })
      → Holds key (Option.get_or (lookup c (m ++ n) key) initial) (m ∷ ms, (0, i))
  own-Holds initial v key m n ms i l g =
      rw (lookup-some m n key v l)
        (record { place = g; value = lookup-some m (entries ms) key v l })

  delegate-Holds :
      (initial v : V) (key : K) (m d : List (Entry K V)) (ms : List (List (Entry K V))) (i : ℕ)
      → lookup c m key ≡ none
      → lookup c d key ≡ some v
      → get_elem? d i ≡ some (record { first = key; second = v })
      → Holds key (Option.get_or (lookup c (m ++ d) key) initial) (m ∷ d ∷ ms, (1, i))
  delegate-Holds initial v key m d ms i n l g = rw (lookup-none m d key n ∙ l) (record {
    place = g;
    value = lookup-none m (d ++ entries ms) key n ∙ lookup-some d (entries ms) key v l;
  })

  new-Holds :
      (initial : V) (key : K) (m n : List (Entry K V)) (ms : List (List (Entry K V)))
      → lookup c m key ≡ none
      → lookup c n key ≡ none
      → Holds key
          (Option.get_or (lookup c (m ++ n) key) initial)
          (insert_initial c initial key m ms)
  new-Holds initial key m n ms h k =
      rw (lookup-none m n key h ∙ k) (insert_initial-Holds initial key m ms h)

  last-Holds :
      (initial : V) (key : K) (m : List (Entry K V)) (o : Option ℕ)
      → Found c m key o
      → Holds key
          (Option.get_or (lookup c (m ++ []) key) initial)
          (elim o [ none ↦ insert_initial c initial key m [] | some i ↦ (m ∷ [], (0, i)) ])
  last-Holds initial key m none (absent h p) = new-Holds initial key m [] [] h (lookup-nil key)
  last-Holds initial key m (some i) (at v l g a b) = own-Holds initial v key m [] [] i l g

  two-Holds :
      (initial : V) (key : K) (m d : List (Entry K V)) (ms : List (List (Entry K V)))
      (o q : Option ℕ)
      → Found c m key o
      → Found c d key q
      → Holds key (Option.get_or (lookup c (m ++ d) key) initial) (elim o [
        | none ↦ elim q [
          | none ↦ insert_initial c initial key m (d ∷ ms)
          | some i ↦ (m ∷ d ∷ ms, (1, i))
        ]
        | some i ↦ (m ∷ d ∷ ms, (0, i))
      ])
  two-Holds initial key m d ms none none (absent h p) (absent k r) =
      new-Holds initial key m d (d ∷ ms) h k
  two-Holds initial key m d ms none (some i) (absent h p) (at v l g a b) =
      delegate-Holds initial v key m d ms i h l g
  two-Holds initial key m d ms (some i) q (at v l g a b) f =
      own-Holds initial v key m d (d ∷ ms) i l g

  -- `operator[]` gives a place with the value that the own map or the delegate's own map has for
  -- the key, or with `Val()` if neither has one, whatever the maps behind them have; and that is
  -- then the value for the key in the map of all the entries.
  pub subscript-Holds :
      (initial : V) (key : K) (m : List (Entry K V)) (ms : List (List (Entry K V)))
      → Holds key
          (Option.get_or (lookup c (m ++ nearest ms) key) initial)
          (subscript c initial key m ms)
  unfolding subscript
  subscript-Holds initial key m [] =
      last-Holds initial key m (VectorMap.find c m key) (find-Found c m key)
  subscript-Holds initial key m (d ∷ ms) =
      two-Holds initial key m d ms (VectorMap.find c m key) (VectorMap.find c d key)
        (find-Found c m key) (find-Found c d key)
