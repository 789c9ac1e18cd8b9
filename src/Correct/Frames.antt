-- ===== src/Correct/Frames.antt =====
-- The slots of a frame of libjarl/vm.cpp: arguments, then constants; and the operands of generated
-- code, corrected to be slots.
use mathlib.Core.Path.{subst}
use jarl.Common.{
  ℕ, zero, suc, ◌+◌, ◌-◌, ◌/◌, ◌%◌, ◌^◌, ◌<◌, ◌≡◌, refl, arith, true, List, [], ◌∷◌, some, ◌==◌,
  length, get_elem?, pos,
}
use jarl.Lexeme.{Bytes}
use jarl.Value.Data.{TypedValue, int, string, FloatOps}
use jarl.Value.Convert.{Scanner}
use jarl.CodeGenerator.Context.{VarAllocMap, find_alloc}
use jarl.CodeGenerator.Relocate.{Layout, relocate_operand}
use jarl.Vm.State.{StackFrame, State, slot}
use jarl.Vm.Calls.{push_all}
use jarl.Function.Code.{Function}
use jarl.Correct.Expr.{Expr, Env, eval}
use jarl.Correct.Leads.{slot-append}
use jarl.Correct.Moves.{relocate_small}
use jarl.Correct.Threads.{Place, stored_number, stored_text, variable}
use jarl.Correct.Run.{Holds}

slot-top : (s : List TypedValue) (v : TypedValue) → slot (v ∷ s) (length s) ≡ some v
unfolding slot
slot-top s v = rw same refl
  where
    same : (length s == length s) ≡ true
    same = ground arith

pub length-push_all : (vs s : List TypedValue) → length (push_all vs s) ≡ length vs + length s
unfolding push_all
length-push_all [] s = omega arith
length-push_all (v ∷ vs) s = omega (arith, length-push_all vs (v ∷ s))

pub slot-push_all_below :
    (vs s : List TypedValue) (i : ℕ) (v : TypedValue)
    → slot s i ≡ some v
    → slot (push_all vs s) i ≡ some v
unfolding push_all
slot-push_all_below [] s i v h = h
slot-push_all_below (w ∷ vs) s i v h =
    slot-push_all_below vs (w ∷ s) i v (slot-append (w ∷ []) s i v h)

pub slot-push_all :
    (vs s : List TypedValue) (i k : ℕ) (v : TypedValue)
    → length s + k ≡ i
    → get_elem? vs k ≡ some v
    → slot (push_all vs s) i ≡ some v
unfolding push_all
slot-push_all [] s i k v q h = absurd cc
slot-push_all (w ∷ vs) s i zero v q h =
    slot-push_all_below vs (w ∷ s) i v
      (subst (λ j. slot (w ∷ s) j ≡ some v) (omega arith) (rw h at (slot-top s w)))
slot-push_all (w ∷ vs) s i (suc k) v q h = slot-push_all vs (w ∷ s) i k v (omega arith) h

relocate_const :
    (l : Layout) (k : ℕ)
    → k < 0x2000
    → l.const_pos + k < 0x10000
    → relocate_operand l (k + 0x4000) ≡ l.const_pos + k
unfolding relocate_operand
relocate_const l k h b = rw quotient place
  where
    quotient : (k + 0x4000) / 0x2000 ≡ 2
    quotient = omega arith

    place : (k + 0x4000 - 0x4000 + l.const_pos) % 2 ^ 16 ≡ l.const_pos + k
    place = omega arith

-- What the frame of a function holds: its constants from `const_pos` on, and a value for each name,
-- at the place of the name.
pub record IsFrame (l : Layout) (cs : List TypedValue) (ms : VarAllocMap) (env : Env) (bp : ℕ)
    (s : List TypedValue) : Type 0 where
  pub constants :
      (k : ℕ) (v : TypedValue) → get_elem? cs k ≡ some v → slot s (bp + (l.const_pos + k)) ≡ some v
  pub variables :
      (x : Bytes) (w : ℕ)
      → find_alloc ms x ≡ some w
      → (w < 0x2000) × ((v : TypedValue) × ((env x ≡ some v) × (slot s (bp + w) ≡ some v)))

module _ (ops : FloatOps) (scanner : Scanner) (functions : List Function) (st : State)
    (fr : StackFrame) (f : Function) (found : get_elem? functions (fr.func) ≡ some f) where
  pub Place-Holds :
      (l : Layout) (cs : List TypedValue) (ms : VarAllocMap) (env : Env) (s : List TypedValue)
      → IsFrame l cs ms env (fr.bp) s
      → l.const_pos < 0x8000
      → (e : Expr) (w : ℕ) → Place cs ms e w
      → Holds ops scanner functions st fr f found env s e (relocate_operand l w)
  unfolding eval
  Place-Holds l cs ms env s h b _ _ (stored_number n k e u) =
      (int (pos n), refl, rw (relocate_const l k u (omega arith)) (h.constants k _ e))
  Place-Holds l cs ms env s h b _ _ (stored_text t k e u) =
      (string t, refl, rw (relocate_const l k u (omega arith)) (h.constants k _ e))
  Place-Holds l cs ms env s h b _ _ (variable x w e) =
      let r = h.variables x w e in
      (r.1.0, rw (eval, r.1.1.0) refl, rw (relocate_small l w r.0) (r.1.1.1))
