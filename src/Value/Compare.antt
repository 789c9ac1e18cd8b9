-- ===== src/Value/Compare.antt =====
-- libjarl/value.cpp: `TypedValue::cmp` in its two forms, and libjarl/string.cpp: `String::cmp`. The
-- narrowing of an `Int` to an `int` keeps the low 32 bits, and a `char` is signed, as the compilers
-- of the build do.
use jarl.Common.{
  ℕ, ◌+◌, ◌-◌, ◌%◌, ◌^◌, Bool, true, false, [], ◌∷◌, none, some, ltb, ◌==◌, if◌then◌else◌, ℤ, pos,
  negsuc, pos_part, neg_part, sub_ℕ, ◌-ℤ◌, ltb_ℤ, leb_ℤ, eqb_ℤ, ◌||◌,
}
use mathlib.Core.Bool.{not}
use jarl.Lexeme.{Bytes}
use jarl.Value.Word.{checked}
use jarl.Value.Data.{
  TypedValue, null, bool, int, float, string, Result, ok, error_jmp, undefined, type_error,
  FloatOps,
}

pub data CmpMode : Type 0 where
  equal not_equal greater less greater_equal less_equal : CmpMode

abbrev pub char_value : ℕ → ℤ
char_value b = if ltb b 0x80 then pos b else sub_ℕ b 0x100

-- Each string is followed by a terminator.
unfoldable pub string_cmp : Bytes → Bytes → ℤ
string_cmp [] [] = pos 0
string_cmp [] (b ∷ _) = pos 0 -ℤ char_value b
string_cmp (a ∷ _) [] = char_value a -ℤ pos 0
string_cmp (a ∷ s) (b ∷ t) =
    let diff = char_value a -ℤ char_value b in
    let rest = string_cmp s t in if not (eqb_ℤ diff (pos 0)) || a == 0 then diff else rest

-- `(int)i`
unfoldable pub low_32 : ℤ → ℕ
low_32 i = (pos_part i + (2 ^ 32 - neg_part i % 2 ^ 32)) % 2 ^ 32

unfoldable pub to_int32 : ℤ → ℤ
unfolding low_32
to_int32 i = if ltb (low_32 i) (2 ^ 31) then pos (low_32 i) else sub_ℕ (low_32 i) (2 ^ 32)

abbrev pub bool_value : Bool → ℤ
bool_value true = pos 1
bool_value false = pos 0

-- `t > 0? 1 : (t < 0? -1 : 0)`
abbrev pub sign_of : ℤ → ℤ
sign_of (pos n) = if ltb 0 n then pos 1 else pos 0
sign_of (negsuc n) = negsuc 0

-- The `switch` on the mode.
unfoldable pub mode_holds : CmpMode → ℤ → Bool
mode_holds CmpMode.equal c = eqb_ℤ c (pos 0)
mode_holds CmpMode.not_equal c = not (eqb_ℤ c (pos 0))
mode_holds CmpMode.greater c = ltb_ℤ (pos 0) c
mode_holds CmpMode.less c = ltb_ℤ c (pos 0)
mode_holds CmpMode.greater_equal c = leb_ℤ (pos 0) c
mode_holds CmpMode.less_equal c = leb_ℤ c (pos 0)

abbrev pub int_difference : ℤ → ℤ → (ℤ → TypedValue) → Result TypedValue
int_difference a b k = elim (checked (a -ℤ b)) [ none ↦ undefined | some t ↦ ok (k t) ]

module _ (ops : FloatOps) where
  open ops use {fsub, of_int, narrow, is_positive, is_negative}

  abbrev pub float_sign : ℕ → ℤ
  float_sign t = if is_positive t then pos 1 else if is_negative t then negsuc 0 else pos 0

  -- The operator `<=>`.
  unfoldable pub cmp : TypedValue → TypedValue → Result TypedValue
  cmp null null = ok (int (pos 0))
  cmp (bool a) (bool b) = ok (int (bool_value a -ℤ bool_value b))
  cmp (int a) (int b) = int_difference a b (λ t. int (sign_of t))
  cmp (int a) (float b) = ok (int (float_sign (fsub (of_int a) b)))
  cmp (float a) (float b) = ok (int (float_sign (fsub a b)))
  cmp (float a) (int b) = ok (int (float_sign (fsub a (of_int b))))
  cmp (string a) (string b) = ok (int (string_cmp a b))
  cmp _ _ = error_jmp type_error

  -- The float difference goes through a `float`: `fcmp < 0.? -1 : (fcmp > 0.? 1 : 0)`.
  abbrev pub narrow_sign : ℕ → ℤ
  narrow_sign t =
      if is_negative (narrow t) then negsuc 0 else if is_positive (narrow t) then pos 1 else pos 0

  -- The operators `==` to `<=`.
  unfoldable pub cmp_mode : CmpMode → TypedValue → TypedValue → Result TypedValue
  cmp_mode m null null = ok (bool (mode_holds m (pos 0)))
  cmp_mode m (bool a) (bool b) = ok (bool (mode_holds m (bool_value a -ℤ bool_value b)))
  cmp_mode m (int a) (int b) = int_difference a b (λ t. bool (mode_holds m (to_int32 t)))
  cmp_mode m (float a) (float b) = ok (bool (mode_holds m (narrow_sign (fsub a b))))
  cmp_mode m (string a) (string b) = ok (bool (mode_holds m (string_cmp a b)))
  cmp_mode m _ _ = error_jmp type_error
