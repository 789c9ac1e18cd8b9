-- ===== src/Function/Positions.antt =====
-- Lists of positions, as `Function::getLine` of libjarl/function.cpp reads them.
use jarl.Common.{
  ℕ, ◌≤◌, ◌<◌, ◌≡◌, refl, ap, List, [], ◌∷◌, ◌++◌, ltb, ltb-false, if◌then◌else◌, arith,
}
use jarl.Function.Lines.{CodePosition, last_of, find_line}

-- The entry with the greatest offset that is not after `pos`, for offsets in order.
unfoldable pub lookup : ℕ → List CodePosition → ℕ → ℕ
lookup line [] pos = line
lookup line (p ∷ ps) pos = if ltb pos p.second then line else lookup p.first ps pos

pub find_line-lookup :
    (last pos line : ℕ) (p : CodePosition) (ps : List CodePosition)
    → pos < (last_of p ps).second
    → find_line last pos line (p ∷ ps) ≡ lookup line (p ∷ ps) pos
unfolding find_line lookup
find_line-lookup last pos line p [] h = ground arith
find_line-lookup last pos line p (q ∷ qs) h =
    ap (λ (x : ℕ). if ltb pos p.second then line else x) (find_line-lookup last pos p.first q qs h)

-- No offset is above `n`.
abbrev pub UpTo : ℕ → List CodePosition → Type 0
UpTo n [] = Unit
UpTo n (p ∷ ps) = (p.second ≤ n) × UpTo n ps

pub UpTo-weaken : (n m : ℕ) (ps : List CodePosition) → n ≤ m → UpTo n ps → UpTo m ps
UpTo-weaken n m [] h u = tt
UpTo-weaken n m (p ∷ ps) h (a, u) = (omega arith, UpTo-weaken n m ps h u)

pub UpTo-push :
    (n : ℕ) (ps : List CodePosition) (q : CodePosition)
    → UpTo n ps
    → q.second ≤ n
    → UpTo n (ps ++ (q ∷ []))
UpTo-push n [] q u h = (h, tt)
UpTo-push n (p ∷ ps) q (a, u) h = (a, UpTo-push n ps q u h)

-- With every offset up to `pos`, the look-up ends in the last entry, and the loop of `getLine` runs past it.
pub lookup-UpTo :
    (pos line : ℕ) (p : CodePosition) (ps : List CodePosition)
    → UpTo pos (p ∷ ps)
    → lookup line (p ∷ ps) pos ≡ (last_of p ps).first
unfolding lookup
lookup-UpTo pos line p [] (a, u) = ground arith
lookup-UpTo pos line p (q ∷ qs) (a, u) =
    rw (ltb-false pos p.second a) (lookup-UpTo pos p.first q qs u)

pub find_line-UpTo :
    (last pos line : ℕ) (ps : List CodePosition) → UpTo pos ps → find_line last pos line ps ≡ last
unfolding find_line
find_line-UpTo last pos line [] u = refl
find_line-UpTo last pos line (p ∷ ps) (a, u) =
    rw (ltb-false pos p.second a) (find_line-UpTo last pos p.first ps u)

-- A new entry changes nothing below its offset.
pub lookup-push :
    (pos line : ℕ) (ps : List CodePosition) (q : CodePosition)
    → pos < q.second
    → lookup line (ps ++ (q ∷ [])) pos ≡ lookup line ps pos
unfolding lookup
lookup-push pos line [] q h = ground arith
lookup-push pos line (p ∷ ps) q h =
    ap (λ (x : ℕ). if ltb pos p.second then line else x) (lookup-push pos p.first ps q h)

pub last_of-push : (p q : CodePosition) (ps : List CodePosition) → last_of p (ps ++ (q ∷ [])) ≡ q
last_of-push p q [] = refl
last_of-push p q (r ∷ ps) = last_of-push r q ps

pub last_of-UpTo :
    (n : ℕ) (p : CodePosition) (ps : List CodePosition)
    → UpTo n (p ∷ ps)
    → (last_of p ps).second ≤ n
last_of-UpTo n p [] (a, u) = a
last_of-UpTo n p (q ∷ ps) (a, u) = last_of-UpTo n q ps u
