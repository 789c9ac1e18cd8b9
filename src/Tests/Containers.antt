-- ===== src/Tests/Containers.antt =====
-- The containers on numbers.
use mathlib.Core.Option
use jarl.Common.{refl, some, ◌<◌, ◌++◌, none, arith, ℕ, ◌≡◌, List, [], ◌∷◌}
use jarl.Containers.VectorSet.{insert, emplace}
use jarl.Containers.VectorSetLaws.{Unique, Inserted, insert-Inserted, emplace-insert}
use jarl.Containers.VectorMap
use jarl.Containers.VectorMap.{Entry, subscript}
use jarl.Containers.VectorMapLaws.{Sets, lookup, is_none, insert-Sets, subscript-Sets}
use jarl.Containers.DelegateMap
use jarl.Containers.DelegateMapLaws.{Located, Holds, nearest, find-Located, subscript-Holds}
use jarl.Containers.DelegateSet
use jarl.Containers.DelegateSetLaws.{insert-past_end}
use jarl.Common.Outcome.{fault}
use jarl.Tests.Inputs.{comp_ℕ}

abbrev keys : List ℕ
keys = 5 ∷ 8 ∷ []

keys-Unique : Unique keys
keys-Unique = (((λ e. omega arith), tt), (tt, tt))

insert-Inserted_example : Inserted 8 keys (insert comp_ℕ.comp 8 keys)
insert-Inserted_example = insert-Inserted comp_ℕ 8 keys keys-Unique

emplace-insert_example : emplace comp_ℕ.comp 8 keys ≡ insert comp_ℕ.comp 8 keys
emplace-insert_example = emplace-insert comp_ℕ 8 keys

abbrev entry : Entry ℕ ℕ
entry = record { first = 5; second = 1 }

abbrev entries : List (Entry ℕ ℕ)
entries = record { first = 5; second = 0 } ∷ record { first = 8; second = 2 } ∷ []

insert-Sets_example :
    Sets comp_ℕ entries 5 1
      ((VectorMap.insert comp_ℕ entry entries).0)
      ((VectorMap.insert comp_ℕ entry entries).1)
    × ((VectorMap.insert comp_ℕ entry entries).2 ≡ is_none (lookup comp_ℕ entries 5))
insert-Sets_example = insert-Sets comp_ℕ entry entries

subscript-Sets_example :
    Sets comp_ℕ entries 7
      (Option.get_or (lookup comp_ℕ entries 7) 0)
      ((subscript comp_ℕ 0 7 entries).0)
      ((subscript comp_ℕ 0 7 entries).1)
subscript-Sets_example = subscript-Sets comp_ℕ 0 7 entries

-- A map with a delegate that has one too: the key 9 is in the last of the three.
abbrev chain : List (List (Entry ℕ ℕ))
chain = [] ∷ (record { first = 9; second = 4 } ∷ []) ∷ []

find-Located_example :
    Located comp_ℕ (entries ∷ chain) 9 (DelegateMap.find comp_ℕ (entries ∷ chain) 9)
find-Located_example = find-Located comp_ℕ (entries ∷ chain) 9

subscript-Holds_example :
    Holds comp_ℕ 9
      (Option.get_or (lookup comp_ℕ (entries ++ nearest chain) 9) 0)
      (DelegateMap.subscript comp_ℕ 0 9 entries chain)
subscript-Holds_example = subscript-Holds comp_ℕ 0 9 entries chain

-- Neither of the two maps before it has the key.
subscript-hides : lookup comp_ℕ (entries ++ nearest chain) 9 ≡ none
unfolding lookup
subscript-hides = refl

one_key : 0 < DelegateSet.size comp_ℕ.comp ((3 ∷ []) ∷ [])
unfolding DelegateSet.size
one_key = omega arith

insert-past_end_example :
    (DelegateSet.subscript comp_ℕ.comp (keys ∷ (3 ∷ []) ∷ []) 4 ≡ fault)
    × (DelegateSet.insert comp_ℕ.comp 4 keys ((3 ∷ []) ∷ []) ≡ fault)
    × ((DelegateSet.emplace comp_ℕ.comp 4 keys ((3 ∷ []) ∷ [])).1
        ≡ DelegateSet.size comp_ℕ.comp (keys ∷ (3 ∷ []) ∷ []))
    × (DelegateSet.at comp_ℕ.comp
          ((DelegateSet.emplace comp_ℕ.comp 4 keys ((3 ∷ []) ∷ [])).0)
          ((DelegateSet.emplace comp_ℕ.comp 4 keys ((3 ∷ []) ∷ [])).1)
        ≡ some 4)
insert-past_end_example =
    insert-past_end comp_ℕ.comp 4 keys ((3 ∷ []) ∷ []) (refl, (refl, tt)) one_key
