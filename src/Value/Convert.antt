-- ===== src/Value/Convert.antt =====
-- libjarl/value.cpp: the conversions `toBool`, `boolNot`, `toInt` and `toFloat`, and `isHashable`.
-- What `sscanf` reads from a string, in libjarl/string.cpp, is a parameter.
use mathlib.Core.Bool.{not}
use jarl.Common.{ℤ, pos, Bool, true, false, Option, none, some, eqb_ℤ}
use jarl.Lexeme.{Float, Bytes}
use jarl.Value.Data.{
  TypedValue, null, bool, int, float, string, Result, ok, error_jmp, undefined, type_error,
  bad_conversion, FloatOps,
}

-- `String::toInt64` and `String::toDouble`
pub record Scanner : Type 0 where
  pub scan_int : Bytes → Option ℤ
  pub scan_float : Bytes → Option Float

abbrev pub bind {ℓ κ} : {T : Type ℓ} {U : Type κ} → Result T → (T → Result U) → Result U
bind (ok t) f = f t
bind (error_jmp e) f = error_jmp e
bind undefined f = undefined

abbrev pub of_bool : Bool → ℤ
of_bool true = pos 1
of_bool false = pos 0

unfoldable pub is_hashable : TypedValue → Bool
is_hashable (int _) = true
is_hashable (string _) = true
is_hashable _ = false

-- `this->value.bool_v = !this->value.bool_v`
abbrev pub flip : TypedValue → Result TypedValue
flip (bool b) = ok (bool (not b))
flip _ = undefined

-- A conversion of a float out of range is undefined.
abbrev pub int_of : Option ℤ → Result TypedValue
int_of none = undefined
int_of (some i) = ok (int i)

module _ (ops : FloatOps) (scanner : Scanner) where
  open ops use {of_int, is_nonzero}
  open scanner use {scan_int, scan_float}

  -- The conversion in place.
  unfoldable pub to_bool : TypedValue → Result TypedValue
  to_bool null = ok (bool false)
  to_bool (bool b) = ok (bool b)
  to_bool (int i) = ok (bool (not (eqb_ℤ i (pos 0))))
  to_bool (float f) = ok (bool (is_nonzero f))
  to_bool _ = error_jmp type_error

  -- The one that only tells, `toBool(bool*)`.
  unfoldable pub test_bool : TypedValue → Result Bool
  test_bool null = ok false
  test_bool (bool b) = ok b
  test_bool (int i) = ok (not (eqb_ℤ i (pos 0)))
  test_bool (float f) = ok (is_nonzero f)
  test_bool _ = error_jmp type_error

  unfoldable pub bool_not : TypedValue → Result TypedValue
  unfolding to_bool
  bool_not (bool b) = flip (bool b)
  bool_not v = bind (to_bool v) flip

  unfoldable pub to_int : TypedValue → Result TypedValue
  to_int (bool b) = ok (int (of_bool b))
  to_int (int i) = ok (int i)
  to_int (float f) = int_of (ops.to_int f)
  to_int (string s) = elim (scan_int s) [ none ↦ error_jmp bad_conversion | some i ↦ ok (int i) ]
  to_int _ = error_jmp type_error

  unfoldable pub to_float : TypedValue → Result TypedValue
  to_float (bool b) = ok (float (of_int (of_bool b)))
  to_float (int i) = ok (float (of_int i))
  to_float (float f) = ok (float f)
  to_float (string s) = elim (scan_float s) [
    | none ↦ error_jmp bad_conversion
    | some f ↦ ok (float f)
  ]
  to_float _ = error_jmp type_error
