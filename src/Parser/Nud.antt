-- ===== src/Parser/Nud.antt =====
-- libjarl/parser.cpp, `Parser::nud_`: what a lexeme begins. `expression_`, `nud_` and `led_` are
-- mutually recursive in the source: here `nud` takes the call of `expression_` as an argument.
-- Where the source leaves the order of a constructor's arguments open, they are evaluated from
-- left to right.
use jarl.Common.{ℕ, ◌+◌}
use jarl.Common.Outcome.{ok}
use jarl.Errors.{
  expected_do, expected_l_paren, expected_r_paren, expected_r_brace, expected_r_bracket,
  expected_expression,
}
use jarl.Ast.{AstNode, AstNodeType as A, new, new_value, new_one, new_two, type_of}
use jarl.Lexeme.{
  Lexeme, LexemeType as L, code, Payload, int_value, float_value, bool_value, string_value,
}
use jarl.Parser.State.{
  P, ◌>>=◌, ◌>>◌, pure, stop, expr_bindp, statement_bindp, block_bindp, bindp, report_error, expect,
}

-- Reads of the union of a lexeme.
abbrev pub int_leaf : Lexeme → Payload → P AstNode
int_leaf lex (int_value i) = pure (new_value A.int (int_value i) lex.pos)
int_leaf lex _ = stop

abbrev pub float_leaf : Lexeme → Payload → P AstNode
float_leaf lex (float_value f) = pure (new_value A.float (float_value f) lex.pos)
float_leaf lex _ = stop

abbrev pub bool_leaf : Lexeme → Payload → P AstNode
bool_leaf lex (bool_value b) = pure (new_value A.bool (bool_value b) lex.pos)
bool_leaf lex _ = stop

abbrev pub string_leaf : A → Lexeme → Payload → P AstNode
string_leaf t lex (string_value s) = pure (new_value t (string_value s) lex.pos)
string_leaf t lex _ = stop

-- A table if the block holds a list, a pair or nothing, and a code block otherwise.
abbrev pub braces_type : A → A
braces_type A.expr_list = A.table
braces_type A.key_value_pair = A.table
braces_type A.nop = A.table
braces_type _ = A.code_block

module _ (expression_ : ℕ → P AstNode) where
  -- `new ASTNode(type, this->expression_(bindp), lex.pos)`
  abbrev pub prefix : A → ℕ → Lexeme → P AstNode
  prefix type bindp lex = do n ← expression_ bindp; pure (new_one type n lex.pos)

  -- A separator with nothing before it.
  abbrev pub lone_separator : A → L → Lexeme → P AstNode
  lone_separator type sep lex = do
    n ← expression_ (bindp sep + 1)
    pure (new_two type (new A.nop lex.pos) n lex.pos)

  -- `new ASTNode(type, tok.release(), this->expression_(def_statement_bindp), (lcurrent_ - 1)->pos)`
  abbrev pub with_body : A → AstNode → P AstNode
  with_body type tok = do
    body ← expression_ statement_bindp
    λ st. ok (new_two type tok body st.prev.pos, st)

  -- `if`, `while` and `for` up to the body
  abbrev pub statement : A → P AstNode
  statement type = do tok ← expression_ block_bindp; expect L.do_ expected_do (with_body type tok)

  unfoldable pub nud_of : L → Lexeme → P AstNode
  unfolding expect bindp
  nud_of L.plus lex = expression_ (code L.expr_class + 1)
  nud_of L.minus lex = prefix A.neg (code L.expr_class + 1) lex
  nud_of L.not_ lex = prefix A.not_ (code L.left_assoc_class + 1) lex
  nud_of L.move lex = prefix A.move (code L.left_assoc_class + 1) lex
  nud_of L.semicolon lex = lone_separator A.seq L.semicolon lex
  nud_of L.newline lex = lone_separator A.seq L.newline lex
  nud_of L.comma lex = lone_separator A.expr_list L.comma lex
  nud_of L.colon lex = lone_separator A.key_value_pair L.colon lex
  nud_of L.if_ lex = statement A.if_
  nud_of L.func lex = expect L.l_paren expected_l_paren do
    cond ← expression_ expr_bindp
    expect L.r_paren expected_r_paren (with_body A.function cond)
  nud_of L.while lex = statement A.while
  nud_of L.for lex = statement A.for
  nud_of L.l_paren lex = do
    tok ← expression_ expr_bindp
    expect L.r_paren expected_r_paren (pure tok)
  nud_of L.l_brace lex = do
    tok ← expression_ block_bindp
    expect L.r_brace expected_r_brace (pure (new_one (braces_type (type_of tok)) tok lex.pos))
  nud_of L.l_bracket lex = do
    tok ← expression_ expr_bindp
    expect L.r_bracket expected_r_bracket (pure (new_one A.array tok lex.pos))
  nud_of L.int lex = int_leaf lex lex.value
  nud_of L.float lex = float_leaf lex lex.value
  nud_of L.bool lex = bool_leaf lex lex.value
  nud_of L.null lex = pure (new A.null lex.pos)
  nud_of L.string lex = string_leaf A.string lex lex.value
  nud_of L.identifier lex = string_leaf A.identifier lex lex.value
  nud_of L.var lex = prefix A.var expr_bindp lex
  nud_of L.return lex = prefix A.return expr_bindp lex
  nud_of L.recurse lex = expect L.l_paren expected_l_paren do
    args ← expression_ expr_bindp
    expect L.r_paren expected_r_paren (λ st. ok (new_one A.recurse args st.prev.pos, st))
  nud_of L.print lex = prefix A.print expr_bindp lex
  nud_of L.assert lex = prefix A.assert expr_bindp lex
  nud_of _ lex = do report_error expected_expression; pure (new A.parse_error lex.pos)

  unfoldable pub nud : Lexeme → P AstNode
  unfolding nud_of
  nud lex = nud_of lex.type lex
