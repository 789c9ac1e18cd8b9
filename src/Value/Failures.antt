-- ===== src/Value/Failures.antt =====
-- When the arithmetic of libjarl/value.cpp fails, and of which type its results are.
use jarl.Common.{
  ◌≡◌, ◌↔◌, refl, Bool, true, false, arith, ℤ, pos, eqb_ℤ, ◌&&◌, Option, none, some, ℕ, Bool-cases,
  inl, inr,
}
use jarl.Value.Word.{checked, quotient, remainder}
use jarl.Value.Data.{
  TypedValue, TypeTag, tag, int, float, Result, ok, error_jmp, undefined, type_error,
  division_by_zero, FloatOps,
}
use jarl.Value.Arith.{of_word, add, sub, mul, div, modulo, ArithOp, apply_op}

abbrev pub is_number : TypedValue → Bool
is_number (int _) = true
is_number (float _) = true
is_number _ = false

-- Two integers give an integer, and a float among two numbers a float.
abbrev pub number_tag : TypedValue → TypedValue → TypeTag
number_tag (int _) (int _) = TypeTag.int
number_tag _ _ = TypeTag.float

abbrev pub is_division : ArithOp → Bool
is_division ArithOp.div_ = true
is_division ArithOp.mod_ = true
is_division _ = false

abbrev pub is_zero : TypedValue → TypedValue → Bool
is_zero (int _) (int b) = eqb_ℤ b (pos 0)
is_zero _ _ = false

pub record Outcomes (op : ArithOp) (a b : TypedValue) (r : Result TypedValue) : Type 0 where
  pub types : (r ≡ error_jmp type_error) ↔ ((is_number a && is_number b) ≡ false)
  pub zero : (r ≡ error_jmp division_by_zero) ↔ ((is_division op && is_zero a b) ≡ true)
  pub result : (v : TypedValue) → r ≡ ok v → tag v ≡ number_tag a b

-- The three ways in which an operation can end, apart from a division by 0.
word-Outcomes :
    (op : ArithOp) (a b : ℤ) (o : Option ℤ)
    → (is_division op && is_zero (int a) (int b)) ≡ false
    → Outcomes op (int a) (int b) (of_word o)
unfolding tag
word-Outcomes op a b none z = record {
  types = (λ h. cc, λ h. cc);
  zero = (λ h. cc, λ h. cc);
  result = λ v h. cc;
}
word-Outcomes op a b (some i) z = record {
  types = (λ h. cc, λ h. cc);
  zero = (λ h. cc, λ h. cc);
  result = λ v h. ground arith;
}

float-Outcomes :
    (op : ArithOp) (a b : TypedValue) (f : ℕ)
    → (is_number a && is_number b) ≡ true
    → number_tag a b ≡ TypeTag.float
    → (is_division op && is_zero a b) ≡ false
    → Outcomes op a b (ok (float f))
unfolding tag
float-Outcomes op a b f n t z = record {
  types = (λ h. cc, λ h. cc);
  zero = (λ h. cc, λ h. cc);
  result = λ v h. ground arith;
}

zero-Outcomes :
    (op : ArithOp) (a b : ℤ)
    → (is_division op && is_zero (int a) (int b)) ≡ true
    → Outcomes op (int a) (int b) (error_jmp division_by_zero)
zero-Outcomes op a b z = record {
  types = (λ h. cc, λ h. cc);
  zero = (λ h. z, λ h. refl);
  result = λ v h. cc;
}

type-Outcomes :
    (op : ArithOp) (a b : TypedValue)
    → (is_number a && is_number b) ≡ false
    → (is_division op && is_zero a b) ≡ false
    → Outcomes op a b (error_jmp type_error)
type-Outcomes op a b n z = record {
  types = (λ h. n, λ h. refl);
  zero = (λ h. cc, λ h. cc);
  result = λ v h. cc;
}

module _ (ops : FloatOps) where
  add-Outcomes : (a b : TypedValue) → Outcomes ArithOp.add_ a b (add ops a b)
  unfolding add
  add-Outcomes (int a) (int b) = word-Outcomes _ a b _ refl
  add-Outcomes (int a) (float b) = float-Outcomes _ _ _ _ refl refl refl
  add-Outcomes (float a) (int b) = float-Outcomes _ _ _ _ refl refl refl
  add-Outcomes (float a) (float b) = float-Outcomes _ _ _ _ refl refl refl
  add-Outcomes _ _ = type-Outcomes _ _ _ refl refl

  sub-Outcomes : (a b : TypedValue) → Outcomes ArithOp.sub_ a b (sub ops a b)
  unfolding sub
  sub-Outcomes (int a) (int b) = word-Outcomes _ a b _ refl
  sub-Outcomes (int a) (float b) = float-Outcomes _ _ _ _ refl refl refl
  sub-Outcomes (float a) (int b) = float-Outcomes _ _ _ _ refl refl refl
  sub-Outcomes (float a) (float b) = float-Outcomes _ _ _ _ refl refl refl
  sub-Outcomes _ _ = type-Outcomes _ _ _ refl refl

  mul-Outcomes : (a b : TypedValue) → Outcomes ArithOp.mul_ a b (mul ops a b)
  unfolding mul
  mul-Outcomes (int a) (int b) = word-Outcomes _ a b _ refl
  mul-Outcomes (int a) (float b) = float-Outcomes _ _ _ _ refl refl refl
  mul-Outcomes (float a) (int b) = float-Outcomes _ _ _ _ refl refl refl
  mul-Outcomes (float a) (float b) = float-Outcomes _ _ _ _ refl refl refl
  mul-Outcomes _ _ = type-Outcomes _ _ _ refl refl

  div-Outcomes : (a b : TypedValue) → Outcomes ArithOp.div_ a b (div ops a b)
  unfolding div
  div-Outcomes (int a) (int b) = elim (Bool-cases (eqb_ℤ b (pos 0))) [
    | inl z ↦ rw z (zero-Outcomes _ a b z)
    | inr n ↦ rw n (word-Outcomes _ a b _ n)
  ]
  div-Outcomes (int a) (float b) = float-Outcomes _ _ _ _ refl refl refl
  div-Outcomes (float a) (int b) = float-Outcomes _ _ _ _ refl refl refl
  div-Outcomes (float a) (float b) = float-Outcomes _ _ _ _ refl refl refl
  div-Outcomes _ _ = type-Outcomes _ _ _ refl refl

  modulo-Outcomes : (a b : TypedValue) → Outcomes ArithOp.mod_ a b (modulo ops a b)
  unfolding modulo
  modulo-Outcomes (int a) (int b) = elim (Bool-cases (eqb_ℤ b (pos 0))) [
    | inl z ↦ rw z (zero-Outcomes _ a b z)
    | inr n ↦ rw n (checked_word n (checked (quotient a b)))
  ]
    where
      checked_word :
          eqb_ℤ b (pos 0) ≡ false
          → (o : Option ℤ)
          → Outcomes ArithOp.mod_
              (int a)
              (int b)
              (elim o [ none ↦ undefined | some _ ↦ ok (int (remainder a b)) ])
      checked_word n none = word-Outcomes _ a b none n
      checked_word n (some i) = word-Outcomes _ a b (some (remainder a b)) n
  modulo-Outcomes (int a) (float b) = float-Outcomes _ _ _ _ refl refl refl
  modulo-Outcomes (float a) (int b) = float-Outcomes _ _ _ _ refl refl refl
  modulo-Outcomes (float a) (float b) = float-Outcomes _ _ _ _ refl refl refl
  modulo-Outcomes _ _ = type-Outcomes _ _ _ refl refl

  -- Of each of the five operations: it ends in a type error exactly when one of the operands is no
  -- number, in a division by zero exactly when it is `/` or `%` on integers and the second is 0,
  -- and a result is an integer if both operands are and a float if not.
  pub apply_op-Outcomes : (op : ArithOp) (a b : TypedValue) → Outcomes op a b (apply_op ops op a b)
  unfolding apply_op
  apply_op-Outcomes ArithOp.add_ a b = add-Outcomes a b
  apply_op-Outcomes ArithOp.sub_ a b = sub-Outcomes a b
  apply_op-Outcomes ArithOp.mul_ a b = mul-Outcomes a b
  apply_op-Outcomes ArithOp.div_ a b = div-Outcomes a b
  apply_op-Outcomes ArithOp.mod_ a b = modulo-Outcomes a b
