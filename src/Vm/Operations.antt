-- ===== src/Vm/Operations.antt =====
-- libjarl/vm.cpp: `doArithOp_`, `doCmpOp_`, and the operations of `execute` that work on the stack
-- and the instruction pointer.
use mathlib.Core.Bool.{not}
use jarl.Common.{
  ℕ, suc, ◌+◌, Bool, true, false, List, [], ◌∷◌, ◌==◌, if◌then◌else◌, length, drop, get_elem?, leb,
  pos,
}
use jarl.Value.Data.{TypedValue, null, bool, int, borrow, Result, FloatOps}
use jarl.Value.Convert.{Scanner, to_bool}
use jarl.OpCodes.{has, head, extended, dest, borrowed, alt1}
use jarl.OpCodes
use jarl.Function.Code.{Function}
use jarl.Vm.State.{
  StackFrame, State, Fate, fault, other, slot, put_slot, settle, within, proceed, jump,
}

-- The word after the instruction pointer.
abbrev pub operand : StackFrame → Function → (ℕ → Fate) → Fate
operand fr f k = within (get_elem? (f.code) (suc (fr.ip))) k

-- `(a.*op)(b)`, of which the last two values are `a` and `b`.
unfoldable pub on_top :
    (TypedValue → TypedValue → Result TypedValue)
    → (List TypedValue → Fate)
    → List TypedValue
    → Fate
on_top op k (b ∷ a ∷ s) = settle (op a b) (λ v. k (v ∷ s))
on_top op k _ = fault

-- The value at an index is the first operand and takes the result; `n` values go off the stack.
unfoldable pub in_place :
    (TypedValue → TypedValue → Result TypedValue)
    → (List TypedValue → Fate)
    → ℕ
    → ℕ
    → List TypedValue
    → Fate
in_place op k i n [] = fault
in_place op k i n (b ∷ s) =
    within (slot (b ∷ s) i)
      (λ a. settle (op a b) (λ v. within (put_slot i v (b ∷ s)) (λ s'. k (drop n s'))))

unfoldable pub with_back :
    (TypedValue → Result TypedValue) → (List TypedValue → Fate) → List TypedValue → Fate
with_back op k [] = fault
with_back op k (a ∷ s) = settle (op a) (λ v. k (v ∷ s))

-- `stack_[size - 2]` as a borrowed value.
unfoldable pub borrowed_place : List TypedValue → (ℕ → Fate) → Fate
borrowed_place (b ∷ borrow i ∷ s) k = k i
borrowed_place _ k = fault

unfoldable pub do_arith_op :
    State → StackFrame → Function → ℕ → (TypedValue → TypedValue → Result TypedValue) → Fate
unfolding on_top in_place with_back borrowed_place
do_arith_op st fr f w op =
    if has w extended
    then operand fr f (λ n.
      if has w dest
      then in_place op (proceed st fr 2) (fr.bp + n) 1 (st.stack)
      else if has w OpCodes.int
      then with_back (λ a. op a (int (pos n))) (proceed st fr 2) (st.stack)
      else within (slot (st.stack) (fr.bp + n))
          (λ b. with_back (λ a. op a b) (proceed st fr 2) (st.stack)))
    else if has w borrowed
    then borrowed_place (st.stack) (λ i. in_place op (proceed st fr 1) i 2 (st.stack))
    else on_top op (proceed st fr 1) (st.stack)

unfoldable pub do_cmp_op :
    State → StackFrame → Function → ℕ → (TypedValue → TypedValue → Result TypedValue) → Fate
unfolding on_top in_place with_back
do_cmp_op st fr f w op =
    if has w extended
    then operand fr f (λ n.
      if has w dest
      then in_place op (proceed st fr 2) (fr.bp + n) 1 (st.stack)
      else if has w OpCodes.int
      then with_back (λ a. op a (int (pos n))) (proceed st fr 2) (st.stack)
      else within (slot (st.stack) (fr.bp + n))
          (λ b. with_back (λ a. op a b) (proceed st fr 2) (st.stack)))
    else on_top op (proceed st fr 1) (st.stack)

unfoldable pub push : State → StackFrame → Function → ℕ → Fate
push st fr f w =
    if has w extended
    then operand fr f (λ n.
      if has w OpCodes.int
      then proceed st fr 2 (int (pos n) ∷ st.stack)
      else within (slot (st.stack) (fr.bp + n)) (λ v. proceed st fr 2 (v ∷ st.stack)))
    else proceed st fr 1 (null ∷ st.stack)

-- `resize` to less.
abbrev pub shrink : ℕ → List TypedValue → (List TypedValue → Fate) → Fate
shrink n s k = if leb n (length s) then k (drop n s) else fault

unfoldable pub pop : State → StackFrame → Function → ℕ → Fate
pop st fr f w =
    if has w extended
    then operand fr f (λ n. shrink n (st.stack) (proceed st fr 2))
    else shrink 1 (st.stack) (proceed st fr 1)

-- The last value takes the place of the `n` before it.
unfoldable pub move_back : ℕ → List TypedValue → (List TypedValue → Fate) → Fate
move_back n [] k = fault
move_back n (v ∷ s) k = shrink n s (λ s'. k (v ∷ s'))

unfoldable pub reduce : State → StackFrame → Function → ℕ → Fate
unfolding move_back
reduce st fr f w =
    if has w extended
    then operand fr f (λ n. move_back n (st.stack) (proceed st fr 2))
    else move_back 1 (st.stack) (proceed st fr 1)

unfoldable pub write : State → StackFrame → Function → ℕ → Fate
unfolding in_place borrowed_place
write st fr f w =
    if head w == extended
    then operand fr f
        (λ n. in_place (λ _ b. Result.ok b) (proceed st fr 2) (fr.bp + n) 1 (st.stack))
    else if head w == borrowed
    then borrowed_place (st.stack)
        (λ i. in_place (λ _ b. Result.ok b) (proceed st fr 1) i 2 (st.stack))
    else fault

-- `Borrow` of a variable; an array or a table would be cloned first. The other forms borrow an
-- element.
abbrev pub is_shared : TypedValue → Bool
is_shared (TypedValue.array _) = true
is_shared (TypedValue.table _) = true
is_shared _ = false

unfoldable pub borrow_op : State → StackFrame → Function → ℕ → Fate
borrow_op st fr f w =
    if head w == extended
    then operand fr f (λ n.
      within (slot (st.stack) (fr.bp + n))
        (λ v. if is_shared v then other else proceed st fr 2 (borrow (fr.bp + n) ∷ st.stack)))
    else if head w == borrowed
    then other
    else if head w == borrowed + alt1
    then other
    else fault

-- `steal`: what is moved from becomes null.
unfoldable pub move_op : State → StackFrame → ℕ → List TypedValue → Fate
move_op st fr w (borrow i ∷ s) =
    if has w borrowed
    then within (slot s i) (λ v. within (put_slot i null s) (λ s'. proceed st fr 1 (v ∷ s')))
    else fault
move_op st fr w _ = fault

unfoldable pub jmp : State → StackFrame → Function → ℕ → Fate
jmp st fr f w =
    if has w extended then operand fr f (λ target. jump st fr target (st.stack)) else fault

abbrev pub same : Bool → Bool → Bool
same true b = b
same false b = not b

-- `value.bool_v`
abbrev pub with_tag : TypedValue → (Bool → Fate) → Fate
with_tag (bool b) k = k b
with_tag _ k = fault

module _ (ops : FloatOps) (scanner : Scanner) where
  -- `stack_.back().toBool()`, and what depends on it.
  abbrev pub with_bool : List TypedValue → (Bool → List TypedValue → Fate) → Fate
  with_bool [] k = fault
  with_bool (v ∷ s) k = settle (to_bool ops scanner v) (λ t. with_tag t (λ b. k b s))

  -- `Jt` and `Jf`: the value is popped in either case.
  unfoldable pub jump_if : Bool → State → StackFrame → Function → ℕ → Fate
  jump_if on st fr f w =
      if has w extended
      then operand fr f (λ target.
        with_bool (st.stack) (λ b s. if same b on then jump st fr target s else proceed st fr 2 s))
      else fault

  -- `Jtsc` and `Jfsc`: the value, now a bool, stays if the jump is taken.
  unfoldable pub jump_short : Bool → State → StackFrame → Function → ℕ → Fate
  jump_short on st fr f w =
      if has w extended
      then operand fr f (λ target.
        with_bool (st.stack)
          (λ b s. if same b on then jump st fr target (bool b ∷ s) else proceed st fr 2 s))
      else fault

  -- `Assert`; the message is under the condition.
  unfoldable pub assert : State → StackFrame → ℕ → Fate
  assert st fr w = with_bool (st.stack) (λ b s.
      if b
      then (if has w alt1
          then shrink 1 s (λ s'. proceed st fr 1 (bool b ∷ s'))
          else proceed st fr 1 (bool b ∷ s))
      else Fate.assertion_failed)
