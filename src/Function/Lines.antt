-- ===== src/Function/Lines.antt =====
-- libjarl/function.cpp: `Function::getLine`, and libjarl/code_generator.cpp: the code and the list
-- of positions that a `ThreadingContext` builds for it.
use jarl.Common.{ℕ, List, [], ◌∷◌, ◌++◌, ltb, ◌==◌, if◌then◌else◌, length}

-- `std::pair<int, int>`: `first` is a line, `second` the offset in the code where it begins.
pub record CodePosition : Type 0 where
  pub first : ℕ
  pub second : ℕ

-- A list of positions that is not empty: `generate` puts its first entry before any code.
pub record Positions : Type 0 where
  pub head : CodePosition
  pub tail : List CodePosition

abbrev pub last_of : CodePosition → List CodePosition → CodePosition
last_of p [] = p
last_of p (q ∷ qs) = last_of q qs

abbrev pub back : Positions → CodePosition
back ps = last_of ps.head ps.tail

-- The loop of `getLine` from the iterator on; `last` is `back().second`.
unfoldable pub find_line : ℕ → ℕ → ℕ → List CodePosition → ℕ
find_line last pos line [] = last
find_line last pos line (p ∷ ps) =
    let rest = find_line last pos p.first ps in if ltb pos p.second then line else rest

unfoldable pub get_line : Positions → ℕ → ℕ
get_line ps pos = find_line (back ps).second pos ps.head.first (ps.head ∷ ps.tail)

pub record ThreadingContext : Type 0 where
  pub code : List ℕ
  pub code_positions : Positions

-- The context in which the code of a function from the line `pos` begins.
unfoldable pub generate_start : ℕ → ThreadingContext
generate_start pos = record {
  code = [];
  code_positions = record { head = record { first = pos; second = 0 }; tail = [] };
}

abbrev pub push_back : Positions → CodePosition → Positions
push_back ps p = record { head = ps.head; tail = ps.tail ++ (p ∷ []) }

unfoldable pub put_instruction : ℕ → ℕ → ThreadingContext → ThreadingContext
put_instruction op pos c = record {
  code = c.code ++ (op ∷ []);
  code_positions =
      if (back c.code_positions).first == pos
      then c.code_positions
      else push_back c.code_positions (record { first = pos; second = length c.code });
}

-- The words of a function's code, operands included, each with the line that it is put for.
pub record Word : Type 0 where
  pub op : ℕ
  pub line : ℕ

unfoldable pub put_all : List Word → ThreadingContext → ThreadingContext
put_all [] c = c
put_all (w ∷ ws) c = put_all ws (put_instruction w.op w.line c)
