-- ===== src/Vm/Step.antt =====
-- libjarl/vm.cpp: the loop of `VM::execute`, the body of which is one `switch`, and its beginning.
use jarl.Common.{
  ℕ, zero, suc, true, false, List, [], ◌∷◌, none, ◌==◌, if◌then◌else◌, length, get_elem?,
}
use jarl.Value.Data.{bool, FloatOps}
use jarl.Value.Convert.{Scanner, bool_not}
use jarl.Value.Arith
use jarl.Value.Compare
use jarl.Value.Compare.{CmpMode}
use jarl.OpCodes.{OpCode, decode}
use jarl.Function.Code.{Function}
use jarl.Vm.State.{StackFrame, State, Fate, fault, other, finished, running, within, proceed}
use jarl.Vm.Operations.{
  do_arith_op, do_cmp_op, with_back, push, pop, reduce, write, borrow_op, move_op, jmp, jump_if,
  jump_short, assert,
}
use jarl.Vm.Calls.{push_function, pop_function, call, recurse, apply_op, create_closure}

module _ (ops : FloatOps) (scanner : Scanner) (functions : List Function) where
  -- The `switch`. A word that is no operation fails the assertion of the default.
  unfoldable pub operation : OpCode → State → StackFrame → Function → ℕ → Fate
  unfolding do_arith_op do_cmp_op with_back push pop reduce write borrow_op move_op jmp jump_if
      jump_short assert pop_function call recurse apply_op create_closure
  operation OpCode.return st fr f w = pop_function st fr
  operation OpCode.nop st fr f w = proceed st fr 1 (st.stack)
  operation OpCode.push st fr f w = push st fr f w
  operation OpCode.push_true st fr f w = proceed st fr 1 (bool true ∷ st.stack)
  operation OpCode.push_false st fr f w = proceed st fr 1 (bool false ∷ st.stack)
  operation OpCode.pop st fr f w = pop st fr f w
  operation OpCode.reduce st fr f w = reduce st fr f w
  operation OpCode.write st fr f w = write st fr f w
  operation OpCode.add st fr f w = do_arith_op st fr f w (Arith.add ops)
  operation OpCode.sub st fr f w = do_arith_op st fr f w (Arith.sub ops)
  operation OpCode.mul st fr f w = do_arith_op st fr f w (Arith.mul ops)
  operation OpCode.div st fr f w = do_arith_op st fr f w (Arith.div ops)
  operation OpCode.mod_ st fr f w = do_arith_op st fr f w (Arith.modulo ops)
  operation OpCode.cmp st fr f w = do_arith_op st fr f w (Compare.cmp ops)
  operation OpCode.neg st fr f w = with_back (Arith.neg ops) (proceed st fr 1) (st.stack)
  operation OpCode.not_ st fr f w = with_back (bool_not ops scanner) (proceed st fr 1) (st.stack)
  operation OpCode.move st fr f w = move_op st fr w (st.stack)
  operation OpCode.eq st fr f w = do_cmp_op st fr f w (Compare.cmp_mode ops CmpMode.equal)
  operation OpCode.neq st fr f w = do_cmp_op st fr f w (Compare.cmp_mode ops CmpMode.not_equal)
  operation OpCode.gt st fr f w = do_cmp_op st fr f w (Compare.cmp_mode ops CmpMode.greater)
  operation OpCode.lt st fr f w = do_cmp_op st fr f w (Compare.cmp_mode ops CmpMode.less)
  operation OpCode.geq st fr f w = do_cmp_op st fr f w (Compare.cmp_mode ops CmpMode.greater_equal)
  operation OpCode.leq st fr f w = do_cmp_op st fr f w (Compare.cmp_mode ops CmpMode.less_equal)
  operation OpCode.jmp st fr f w = jmp st fr f w
  operation OpCode.jt st fr f w = jump_if ops scanner true st fr f w
  operation OpCode.jf st fr f w = jump_if ops scanner false st fr f w
  operation OpCode.jtsc st fr f w = jump_short ops scanner true st fr f w
  operation OpCode.jfsc st fr f w = jump_short ops scanner false st fr f w
  operation OpCode.apply st fr f w = apply_op functions st fr f w
  operation OpCode.create_closure st fr f w = create_closure functions st fr f w
  operation OpCode.call st fr f w = call functions st fr f w
  operation OpCode.recurse st fr f w = recurse functions st fr f w
  operation OpCode.borrow st fr f w = borrow_op st fr f w
  operation OpCode.assert st fr f w = assert ops scanner st fr w
  operation OpCode.store st fr f w = fault
  operation _ st fr f w = other

  unfoldable pub step_word : State → StackFrame → Function → ℕ → Fate
  unfolding operation
  step_word st fr f w = within (decode w) (λ op. operation op st fr f w)

  -- One turn of the loop, which ends where the code does.
  unfoldable pub step_in : State → StackFrame → Function → Fate
  unfolding step_word
  step_in st fr f =
      if fr.ip == length (f.code)
      then finished st
      else within (get_elem? (f.code) (fr.ip)) (λ w. step_word st fr f w)

  unfoldable pub step : State → Fate
  unfolding step_in
  step st = within (st.frame) (λ fr. within (get_elem? functions (fr.func)) (λ f. step_in st fr f))

  -- The loop, for so many turns.
  unfoldable pub run : ℕ → Fate → Fate
  unfolding step
  run zero r = r
  run (suc n) (running st) = run n (step st)
  run (suc n) r = r

-- The state in which `execute` enters the loop; on a new machine the stack is empty.
unfoldable pub execute : List Function → ℕ → State → Fate
unfolding push_function
execute functions a st = within (get_elem? functions a) (λ f. push_function st a f)

abbrev pub new_machine : State
new_machine = record { stack = []; call_stack = []; frame = none; partials = [] }
