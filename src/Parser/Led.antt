-- ===== src/Parser/Led.antt =====
-- libjarl/parser.cpp, `Parser::led_`: what goes on after an expression.
use jarl.Common.{ℕ, ◌-◌, Option, none, some, leb, if◌then◌else◌}
use jarl.Errors.{expected_r_paren, expected_r_bracket, unexpected_lexeme}
use jarl.Ast.{AstNode, AstNodeType as A, new_two}
use jarl.Lexeme.{Lexeme, LexemeType as L, code}
use jarl.Parser.State.{P, ◌>>=◌, pure, stop, expr_bindp, bindp, fail, expect}
use jarl.Parser.Nud.{nud}

-- The nodes of the operators that associate to the left; the source asserts that there is no other.
unfoldable pub binary_type : L → Option A
binary_type L.plus = some A.add
binary_type L.minus = some A.sub
binary_type L.mul = some A.mul
binary_type L.div = some A.div
binary_type L.mod_ = some A.mod_
binary_type L.append = some A.append
binary_type L.cmp = some A.cmp
binary_type L.eq = some A.eq
binary_type L.neq = some A.neq
binary_type L.gt = some A.gt
binary_type L.lt = some A.lt
binary_type L.geq = some A.geq
binary_type L.leq = some A.leq
binary_type L.and_ = some A.and_
binary_type L.or_ = some A.or_
binary_type L.in_ = some A.in_
binary_type _ = none

-- Those that associate to the right.
unfoldable pub right_assoc_type : L → Option A
right_assoc_type L.assign = some A.assign
right_assoc_type L.add_assign = some A.add_assign
right_assoc_type L.sub_assign = some A.sub_assign
right_assoc_type L.mul_assign = some A.mul_assign
right_assoc_type L.div_assign = some A.div_assign
right_assoc_type L.mod_assign = some A.mod_assign
right_assoc_type L.append_assign = some A.append_assign
right_assoc_type L.insert = some A.insert
right_assoc_type L.comma = some A.expr_list
right_assoc_type L.colon = some A.key_value_pair
right_assoc_type _ = none

-- The separators; any other lexeme of these levels is an error.
unfoldable pub separator_type : L → Option A
separator_type L.semicolon = some A.seq
separator_type L.newline = some A.seq
separator_type L.comma = some A.expr_list
separator_type L.else_ = some A.else_
separator_type _ = none

abbrev pub join : Option A → AstNode → AstNode → Lexeme → P AstNode → P AstNode
join (some type) left right lex otherwise = pure (new_two type left right lex.pos)
join none left right lex otherwise = otherwise

module _ (expression_ : ℕ → P AstNode) where
  -- An index, a call, or the application of what stands on the left.
  abbrev pub postfix : L → Lexeme → AstNode → P AstNode
  postfix L.l_bracket lex left = do
    right ← expression_ expr_bindp
    expect L.r_bracket expected_r_bracket (pure (new_two A.index left right lex.pos))
  postfix L.l_paren lex left = do
    right ← expression_ expr_bindp
    expect L.r_paren expected_r_paren (pure (new_two A.call left right lex.pos))
  postfix _ lex left = do right ← nud expression_ lex; pure (new_two A.apply left right lex.pos)

  unfoldable pub left_assoc : Lexeme → AstNode → P AstNode
  unfolding binary_type bindp
  left_assoc lex left = do
    right ← expression_ (bindp lex.type)
    join (binary_type lex.type) left right lex stop

  unfoldable pub right_assoc : Lexeme → AstNode → P AstNode
  unfolding right_assoc_type bindp
  right_assoc lex left = do
    right ← expression_ (bindp lex.type - 1)
    join (right_assoc_type lex.type) left right lex stop

  unfoldable pub separated : Lexeme → AstNode → P AstNode
  unfolding separator_type bindp fail
  separated lex left = do
    right ← expression_ (bindp lex.type)
    join (separator_type lex.type) left right lex (fail unexpected_lexeme)

  -- Below the stop symbols the source returns a null pointer.
  unfoldable pub led : Lexeme → AstNode → P AstNode
  led lex left =
      let typen = bindp lex.type in
      if leb (code L.expr_class) typen
      then postfix lex.type lex left
      else if leb (code L.left_assoc_class) typen
      then left_assoc lex left
      else if leb (code L.right_assoc_class) typen
      then right_assoc lex left
      else if leb (code L.stop_symbol_class) typen
      then separated lex left
      else stop
