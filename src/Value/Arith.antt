-- ===== src/Value/Arith.antt =====
-- libjarl/value.cpp: `TypedValue::add`, `sub`, `mul`, `div`, `mod` and `neg`.
use jarl.Common.{ℤ, Option, none, some, ◌+ℤ◌, ◌-ℤ◌, ◌*ℤ◌, eqb_ℤ, if◌then◌else◌, pos}
use jarl.Value.Word.{checked, negate, quotient, remainder}
use jarl.Value.Data.{
  TypedValue, int, float, Result, ok, error_jmp, undefined, type_error, division_by_zero, FloatOps,
}

-- The result of an operation on `Int`.
abbrev pub of_word : Option ℤ → Result TypedValue
of_word none = undefined
of_word (some i) = ok (int i)

module _ (ops : FloatOps) where
  open ops use {fadd, fsub, fmul, fdiv, fmod, fneg, of_int}

  unfoldable pub add : TypedValue → TypedValue → Result TypedValue
  add (int a) (int b) = of_word (checked (a +ℤ b))
  add (int a) (float b) = ok (float (fadd (of_int a) b))
  add (float a) (int b) = ok (float (fadd a (of_int b)))
  add (float a) (float b) = ok (float (fadd a b))
  add _ _ = error_jmp type_error

  unfoldable pub sub : TypedValue → TypedValue → Result TypedValue
  sub (int a) (int b) = of_word (checked (a -ℤ b))
  sub (int a) (float b) = ok (float (fsub (of_int a) b))
  sub (float a) (int b) = ok (float (fsub a (of_int b)))
  sub (float a) (float b) = ok (float (fsub a b))
  sub _ _ = error_jmp type_error

  unfoldable pub mul : TypedValue → TypedValue → Result TypedValue
  mul (int a) (int b) = of_word (checked (a *ℤ b))
  mul (int a) (float b) = ok (float (fmul (of_int a) b))
  mul (float a) (int b) = ok (float (fmul a (of_int b)))
  mul (float a) (float b) = ok (float (fmul a b))
  mul _ _ = error_jmp type_error

  unfoldable pub div : TypedValue → TypedValue → Result TypedValue
  div (int a) (int b) =
      if eqb_ℤ b (pos 0) then error_jmp division_by_zero else of_word (checked (quotient a b))
  div (int a) (float b) = ok (float (fdiv (of_int a) b))
  div (float a) (int b) = ok (float (fdiv a (of_int b)))
  div (float a) (float b) = ok (float (fdiv a b))
  div _ _ = error_jmp type_error

  -- The remainder is undefined where the quotient overflows.
  unfoldable pub modulo : TypedValue → TypedValue → Result TypedValue
  modulo (int a) (int b) =
      if eqb_ℤ b (pos 0)
      then error_jmp division_by_zero
      else elim (checked (quotient a b)) [ none ↦ undefined | some _ ↦ ok (int (remainder a b)) ]
  modulo (int a) (float b) = ok (float (fmod (of_int a) b))
  modulo (float a) (int b) = ok (float (fmod a (of_int b)))
  modulo (float a) (float b) = ok (float (fmod a b))
  modulo _ _ = error_jmp type_error

  unfoldable pub neg : TypedValue → Result TypedValue
  neg (int a) = of_word (checked (negate a))
  neg (float a) = ok (float (fneg a))
  neg _ = error_jmp type_error

-- The operations that `VM::doArithOp_` is handed as pointers to members.
pub data ArithOp : Type 0 where
  add_ sub_ mul_ div_ mod_ : ArithOp

module _ (ops : FloatOps) where
  unfoldable pub apply_op : ArithOp → TypedValue → TypedValue → Result TypedValue
  apply_op ArithOp.add_ = add ops
  apply_op ArithOp.sub_ = sub ops
  apply_op ArithOp.mul_ = mul ops
  apply_op ArithOp.div_ = div ops
  apply_op ArithOp.mod_ = modulo ops
