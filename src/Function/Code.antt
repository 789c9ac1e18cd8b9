-- ===== src/Function/Code.antt =====
-- libjarl/function.h: the class `Function`, which the generator makes and the machine runs.
use jarl.Common.{ℕ, List}
use jarl.Value.Data.{TypedValue}
use jarl.Function.Lines.{Positions}

pub record Function : Type 0 where
  pub code : List ℕ
  pub values : List TypedValue
  pub code_positions : Positions
  pub arguments : ℕ
  pub captures : ℕ
  pub locals : ℕ
