-- ===== src/Tests/Values.antt =====
-- The arithmetic and the comparisons of libjarl/value.cpp on small integers.
use jarl.Common.{
  All, some, none, length, ◌==◌, if◌then◌else◌, ◌∷◌, arith, [], ◌≡◌, ◌≢◌, ◌↔◌, ◌%◌, ◌^◌, refl, true,
  pos, negsuc, ℤ, ◌-ℤ◌,
}
use jarl.Lexeme.{Bytes}
use jarl.Value.Word.{negate, magnitude, in_range}
use jarl.Value.Data.{int, string, ok, bool, undefined}
use jarl.Value.Arith.{ArithOp, div, modulo, apply_op}
use jarl.Value.ArithLaws.{Divides, div-modulo, div-undefined_iff, int_min, minus_one}
use jarl.Value.Failures.{Outcomes, apply_op-Outcomes}
use jarl.Value.Compare.{cmp, CmpMode, cmp_mode, string_cmp}
use jarl.Value.CompareLaws.{compares, cmp_mode-compares, cmp_mode-equal_iff, order, cmp-order}
use jarl.Value.Convert.{Scanner, bind, bool_not, to_bool, test_bool}
use jarl.Value.ConvertLaws.{bool_not-test_bool, to_bool-test_bool}
use mathlib.Core.Bool.{not}
use jarl.Value.StringLaws.{IsChar, string_cmp-zero_iff, string_cmp-flip}
use jarl.Tests.Inputs.{float_ops}

-- -7
abbrev minus_seven : ℤ
minus_seven = negsuc 6

not_zero : pos 2 ≢ pos 0
not_zero e = cc

not_overflow : ¬ ((minus_seven ≡ int_min) × (pos 2 ≡ minus_one))
not_overflow h = let e = h.1 in cc

div-modulo_example :
    (q : ℤ) × (r : ℤ) × (div float_ops (int minus_seven) (int (pos 2)) ≡ ok (int q))
    × (modulo float_ops (int minus_seven) (int (pos 2)) ≡ ok (int r))
    × Divides minus_seven (pos 2) q r
div-modulo_example = div-modulo float_ops minus_seven (pos 2) refl not_zero not_overflow

div-undefined_iff_example :
    (div float_ops (int int_min) (int minus_one) ≡ undefined)
    ↔ ((int_min ≡ int_min) × (minus_one ≡ minus_one))
div-undefined_iff_example = div-undefined_iff float_ops int_min minus_one refl

apply_op-Outcomes_example :
    Outcomes ArithOp.mod_
      (int (pos 7))
      (string [])
      (apply_op float_ops ArithOp.mod_ (int (pos 7)) (string []))
apply_op-Outcomes_example = apply_op-Outcomes float_ops ArithOp.mod_ (int (pos 7)) (string [])

cmp_mode-compares_example :
    cmp_mode float_ops CmpMode.less (int minus_seven) (int (pos 2))
    ≡ ok (bool (compares CmpMode.less minus_seven (pos 2)))
cmp_mode-compares_example =
    cmp_mode-compares float_ops CmpMode.less minus_seven (pos 2) (omega arith) (omega arith)

-- 2^32 == 0
difference-in_range : in_range (pos (2 ^ 32) -ℤ pos 0) ≡ true
unfolding ◌-ℤ◌
difference-in_range = refl

cmp_mode-equal_iff_example :
    (cmp_mode float_ops CmpMode.equal (int (pos (2 ^ 32))) (int (pos 0)) ≡ ok (bool true))
    ↔ (magnitude (pos (2 ^ 32) -ℤ pos 0) % 2 ^ 32 ≡ 0)
cmp_mode-equal_iff_example = cmp_mode-equal_iff float_ops (pos (2 ^ 32)) (pos 0) difference-in_range

-- A scanner that knows one numeral.
abbrev scanner : Scanner
scanner = record {
  scan_int = λ s. if length s == 1 then some (pos 1) else none;
  scan_float = λ s. if length s == 1 then some 1 else none;
}

bool_not-test_bool_example :
    (bool_not float_ops scanner (int (pos 2))
      ≡ bind (test_bool float_ops scanner (int (pos 2))) (λ b. ok (bool (not b))))
    × (bind (bool_not float_ops scanner (int (pos 2))) (λ w. bool_not float_ops scanner w)
        ≡ to_bool float_ops scanner (int (pos 2)))
bool_not-test_bool_example = bool_not-test_bool float_ops scanner (int (pos 2))

to_bool-test_bool_example :
    to_bool float_ops scanner (int (pos 2))
    ≡ bind (test_bool float_ops scanner (int (pos 2))) (λ b. ok (bool b))
to_bool-test_bool_example = to_bool-test_bool float_ops scanner (int (pos 2))

-- `az` and a string with a byte above 127
abbrev low : Bytes
low = 0x61 ∷ 0x7a ∷ []

abbrev high : Bytes
high = 0x61 ∷ 0xc3 ∷ []

low-IsChar : All IsChar low
low-IsChar = (omega arith, (omega arith, tt))

high-IsChar : All IsChar high
high-IsChar = (omega arith, (omega arith, tt))

string_cmp-zero_iff_example : (string_cmp low high ≡ pos 0) ↔ (low ≡ high)
string_cmp-zero_iff_example = string_cmp-zero_iff low high low-IsChar high-IsChar

string_cmp-flip_example : string_cmp high low ≡ negate (string_cmp low high)
string_cmp-flip_example = string_cmp-flip low high low-IsChar high-IsChar

cmp-order_example :
    cmp float_ops (int (pos (2 ^ 32))) (int (pos 0)) ≡ ok (int (order (pos (2 ^ 32)) (pos 0)))
cmp-order_example = cmp-order float_ops (pos (2 ^ 32)) (pos 0) difference-in_range
