-- ===== src/Correct/Outputs.antt =====
-- Steps of libjarl/code_generator.cpp that add words to the code and constants to the set, and leave
-- the rest of the context as it is.
use mathlib.Core.Path.{subst}
use mathlib.Core.List.{append_assoc, append-nil}
use jarl.Common.{ℕ, ◌+◌, ◌≡◌, refl, arith, List, [], ◌∷◌, ◌++◌, length, ap, length-append}
use jarl.Common.Outcome
use jarl.Common.Outcome.{Outcome, ok}
use jarl.Value.Data.{TypedValue}
use jarl.Function.Lines.{Positions, put_instruction}
use jarl.OpCodes.{word}
use jarl.CodeGenerator.Context.{Context, Gen, skip, put, patch, set_elem}
use jarl.CodeGenerator.Branch.{land}

abbrev pub grow : Context → List ℕ → List TypedValue → Positions → Context
grow c ws more ps = record c {
  out = record { code = c.out.code ++ ws; code_positions = ps };
  constants = c.constants ++ more;
}

pub data Outputs (c : Context) (ws : List ℕ) (more : List TypedValue)
    : Outcome Context → Type 0 where
  outputs : (ps : Positions) → Outputs c ws more (ok (grow c ws more ps))

pub put-Outputs : (op line : ℕ) (c : Context) → Outputs c (op ∷ []) [] (put op line c)
unfolding put put_instruction
put-Outputs op line c =
    subst
      (λ cs.
        Outputs c (op ∷ []) []
          (ok (record c { out = put_instruction op line (c.out); constants = cs })))
      (append-nil (c.constants)) (outputs (put_instruction op line (c.out)).code_positions)

pub Outputs-regroup :
    {c : Context} {vs : List ℕ} {ns : List TypedValue} {r : Outcome Context} (ws : List ℕ)
    (ms : List TypedValue) (ps : Positions)
    → Outputs (grow c ws ms ps) vs ns r
    → Outputs c (ws ++ vs) (ms ++ ns) r
Outputs-regroup {c} {vs} {ns} ws ms ps (outputs ps') =
    rw (append_assoc (c.out.code) ws vs, append_assoc (c.constants) ms ns) (outputs ps')

pub Outputs-bind :
    {c : Context} {ws vs : List ℕ} {ms ns : List TypedValue} {r : Outcome Context} (k : Gen)
    → Outputs c ws ms r
    → ((ps : Positions) → Outputs (grow c ws ms ps) vs ns (k (grow c ws ms ps)))
    → Outputs c (ws ++ vs) (ms ++ ns) (Outcome.bind r k)
Outputs-bind {ws = ws} {ms = ms} k (outputs ps) h = Outputs-regroup ws ms ps (h ps)

pub skip-Outputs : (c : Context) → Outputs c [] [] (skip c)
skip-Outputs c =
    subst (λ cs. Outputs c [] [] (ok (record c { constants = cs }))) (append-nil (c.constants))
      (subst
        (λ ws.
          Outputs c [] []
            (ok (record c { out = record (c.out) { code = ws }; constants = c.constants ++ [] })))
        (append-nil (c.out.code)) (outputs (c.out.code_positions)))

set_elem-append :
    (xs ys : List ℕ) (v w : ℕ) → set_elem (length xs) v ((xs ++ (w ∷ [])) ++ ys) ≡ xs ++ (v ∷ ys)
unfolding set_elem
set_elem-append [] ys v w = refl
set_elem-append (x ∷ xs) ys v w = ap {B = List ℕ} (λ l. x ∷ l) (set_elem-append xs ys v w)

code_at :
    (code xs vs : List ℕ) (v : ℕ)
    → set_elem (length (code ++ xs)) v ((code ++ (xs ++ (0 ∷ []))) ++ vs) ≡ code ++ (xs ++ (v ∷ vs))
code_at code xs vs v =
    rw (← append_assoc code xs (0 ∷ []), set_elem-append (code ++ xs) vs v 0)
      (append_assoc code xs (v ∷ vs))

size_at :
    (code xs vs : List ℕ)
    → length ((code ++ (xs ++ (0 ∷ []))) ++ vs) ≡ length code + length xs + 1 + length vs
size_at code xs vs = omega (
  arith,
  length-append (code ++ (xs ++ (0 ∷ []))) vs,
  length-append code (xs ++ (0 ∷ [])),
  length-append xs (0 ∷ []),
)

-- The 0 after `xs` is overwritten when the words `vs` have been put.
pub land_grown :
    (n : ℕ) (c : Context) (xs vs : List ℕ) (ms more : List TypedValue) (ps : Positions)
    {r : Outcome Context}
    → Outputs (grow c (xs ++ (0 ∷ [])) ms ps) vs more r
    → Outputs c
        (xs ++ (word (length (c.out.code) + length xs + 1 + length vs + n) ∷ vs))
        (ms ++ more)
        (Outcome.bind r (land n (length (c.out.code ++ xs))))
unfolding patch
land_grown n c xs vs ms more ps (outputs ps') =
    rw (size_at (c.out.code) xs vs, code_at (c.out.code) xs vs, append_assoc (c.constants) ms more)
      (outputs ps')
