-- ===== src/Tests/Inputs.antt =====
-- The inputs of the tests: the lexemes of `1 + 2 * 3`, a processor's operations on floats that are
-- not meant to be right, and the comparison of numbers.
use jarl.Common.{
  ℕ, List, [], ◌∷◌, false, ◌==◌, ◌+◌, ◌-◌, ◌*◌, ◌/◌, ◌%◌, ltb, pos, some, ==_iff, pos_part,
}
use jarl.Lexeme.{Lexeme, LexemeType, of_type, of_int}
use jarl.Value.Data.{FloatOps}
use jarl.Containers.Comp.{Comp}

abbrev pub begin : Lexeme
begin = of_type LexemeType.newline (1, 0)

abbrev pub sum : List Lexeme
sum =
    of_int (pos 1) (1, 0)
    ∷ of_type LexemeType.plus (1, 2)
    ∷ of_int (pos 2) (1, 4)
    ∷ of_type LexemeType.mul (1, 6)
    ∷ of_int (pos 3) (1, 8)
    ∷ of_type LexemeType.end (1, 9)
    ∷ []

abbrev pub float_ops : FloatOps
float_ops = record {
  fadd = λ a b. a + b;
  fsub = λ a b. a - b;
  fmul = λ a b. a * b;
  fdiv = λ a b. a / b;
  fmod = λ a b. a % b;
  fneg = λ a. a;
  of_int = pos_part;
  to_int = λ a. some (pos a);
  narrow = λ a. a;
  is_positive = λ a. ltb 0 a;
  is_negative = λ a. false;
  is_nonzero = λ a. ltb 0 a;
}

abbrev pub comp_ℕ : Comp ℕ
comp_ℕ = record { comp = λ a b. a == b; lawful = ==_iff }
