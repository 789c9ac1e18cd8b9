-- ===== src/Correct/Leads.antt =====
-- What the loop of `VM::execute` in libjarl/vm.cpp comes to, in finitely many turns, and the state
-- of a function while its code runs.
use mathlib.Core.Path.{subst}
use mathlib.Core.List.{append_assoc}
use jarl.Common.{
  ℕ, zero, suc, ◌+◌, ◌≡◌, ◌<◌, refl, arith, false, List, [], ◌∷◌, ◌++◌, some, ◌==◌, length,
  get_elem?, length-append, length-push, Bool-cases, inl, inr,
}
use jarl.Value.Data.{TypedValue, FloatOps}
use jarl.Value.Convert.{Scanner}
use jarl.Function.Code.{Function}
use jarl.Vm.State.{State, Fate, running, slot}
use jarl.Vm.Step.{step}

module _ (ops : FloatOps) (scanner : Scanner) (functions : List Function) where
  pub data Leads : State → Fate → Type 0 where
    here : {st : State} → Leads st (running st)
    next :
        {st u : State} {r : Fate}
        → step ops scanner functions st ≡ running u
        → Leads u r
        → Leads st r
    last : {st : State} {r : Fate} → step ops scanner functions st ≡ r → Leads st r

-- The words from an address on.
abbrev pub At : List ℕ → ℕ → List ℕ → Type 0
At code i [] = Unit
At code i (w ∷ ws) = (get_elem? code i ≡ some w) × At code (suc i) ws

pub At-append :
    (code : List ℕ) (i n : ℕ) (xs ys : List ℕ)
    → length xs ≡ n
    → At code i (xs ++ ys)
    → At code i xs × At code (i + n) ys
At-append code i n [] ys e h = (tt, subst (λ j. At code j ys) (omega arith) h)
At-append code i n (x ∷ xs) ys e (h, t) =
    let r = At-append code (suc i) (length xs) xs ys refl t in
    ((h, r.0), subst (λ j. At code j ys) (omega arith) r.1)

pub At-two : (code : List ℕ) (i : ℕ) (ws : List ℕ) → At code (suc (suc i)) ws → At code (i + 2) ws
At-two code i ws h = subst (λ j. At code j ws) (omega arith) h

pub get_elem?_middle :
    {A : Type 0} (pre ws : List A) (w : A) (i : ℕ)
    → length pre ≡ i
    → get_elem? (pre ++ (w ∷ ws)) i ≡ some w
get_elem?_middle [] ws w zero e = refl
get_elem?_middle [] ws w (suc i) e = absurd (omega arith)
get_elem?_middle (p ∷ pre) ws w zero e = absurd (omega arith)
get_elem?_middle (p ∷ pre) ws w (suc i) e = get_elem?_middle pre ws w i (omega arith)

-- The words that stand at the end of a code.
pub At-all : (pre ws : List ℕ) (i : ℕ) → length pre ≡ i → At (pre ++ ws) i ws
At-all pre [] i e = tt
At-all pre (w ∷ ws) i e = (
  get_elem?_middle pre ws w i e,
  subst (λ code. At code (suc i) ws) (append_assoc pre (w ∷ []) ws)
      (At-all (pre ++ (w ∷ [])) ws (suc i) (omega (arith, length-push pre w))),
)

pub get_elem?_bound :
    {A : Type 0} (xs : List A) (i : ℕ) (a : A) → get_elem? xs i ≡ some a → i < length xs
get_elem?_bound [] i a h = absurd cc
get_elem?_bound (x ∷ xs) zero a h = omega arith
get_elem?_bound (x ∷ xs) (suc i) a h = omega (arith, get_elem?_bound xs i a h)

slot_bound : (s : List TypedValue) (i : ℕ) (v : TypedValue) → slot s i ≡ some v → i < length s
unfolding slot
slot_bound [] i v h = absurd cc
slot_bound (w ∷ s) i v h = elim (Bool-cases (i == length s)) [
  | inl t ↦ ground arith
  | inr f ↦ omega (arith, slot_bound s i v (rw f at h))
]

-- Values on top do not move a slot.
pub slot-append :
    (pre s : List TypedValue) (i : ℕ) (v : TypedValue)
    → slot s i ≡ some v
    → slot (pre ++ s) i ≡ some v
unfolding slot
slot-append [] s i v h = h
slot-append (p ∷ pre) s i v h = rw (other_place) (slot-append pre s i v h)
  where
    other_place : (i == length (pre ++ s)) ≡ false
    other_place = ground (arith, slot_bound s i v h, length-append pre s)
