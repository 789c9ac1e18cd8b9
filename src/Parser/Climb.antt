-- ===== src/Parser/Climb.antt =====
-- libjarl/parser.cpp, `Parser::expression_` and `Parser::parse`: precedence climbing, on fuel: as
-- much of it as there are lexemes left.
use jarl.Common.{ℕ, zero, suc, List, [], ◌∷◌, ltb, if◌then◌else◌, length}
use jarl.Common.Outcome
use jarl.Common.Outcome.{Outcome, ok, fault, out_of_fuel}
use jarl.Errors.{Error}
use jarl.Ast.{AstNode, AstNodeType as A, new}
use jarl.Lexeme.{Lexeme}
use jarl.Parser.State.{P, ◌>>=◌, pure, block_bindp, bindp, next, current}
use jarl.Parser.Nud.{nud}
use jarl.Parser.Led.{led}

module _ (expression_ : ℕ → P AstNode) where
  -- `while(bindp < bindp_(this->lcurrent_->type)) left = this->led_(this->next_(), left);`
  unfoldable pub led_loop : ℕ → ℕ → AstNode → P AstNode
  led_loop zero bp left = λ st. out_of_fuel
  led_loop (suc n) bp left = do
    l ← current
    let again = do lex ← next; left' ← led expression_ lex left; led_loop n bp left'
    if ltb bp (bindp l.type) then again else pure left

  -- The body of `expression_`, with `n` units of fuel for its loop.
  unfoldable pub expression_body : ℕ → ℕ → P AstNode
  expression_body n bp = do
    l ← current
    let climb = do lex ← next; left ← nud expression_ lex; led_loop n bp left
    if ltb (bindp l.type) bp then pure (new A.nop l.pos) else climb

unfoldable pub expression : ℕ → ℕ → P AstNode
expression zero bp = λ st. out_of_fuel
expression (suc f) bp = expression_body (expression f) f bp

-- `Parser(lexes).parse(errors)`: the first lexeme is skipped, and its place is that of `lbegin_ - 1`.
unfoldable pub parse : List Lexeme → List Error → Outcome (AstNode × List Error)
parse [] errors = fault
parse (first ∷ rest) errors =
    Outcome.bind
      (expression (length rest) block_bindp (record { prev = first; rest = rest; errors = errors }))
      λ r. ok (r.0, r.1.errors)
