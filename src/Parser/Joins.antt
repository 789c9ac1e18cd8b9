-- ===== src/Parser/Joins.antt =====
-- The types of the nodes that `Parser::led_` of libjarl/parser.cpp makes of two expressions.
use jarl.Common.{ℕ, ◌+◌, ◌≤◌, ◌<◌, ◌≡◌, arith, some, none, Option}
use jarl.Common.Outcome.{Returns, returns}
use jarl.Lexeme.{Lexeme, LexemeType as L, code}
use jarl.Lexeme.Tokens.{IsTokens, IsSymbol}
use jarl.Ast.{AstNode, AstNodeType as A, arm_class}
use jarl.Ast.Shape
use jarl.Ast.Shape.{IsWellFormed, error_nodes, error_weight}
use jarl.Parser.State.{ParserState, P, bindp}
use jarl.Parser.Led.{binary_type, right_assoc_type, separator_type, join}
use jarl.Parser.Post.{Post}

-- The types that a node with two children may have.
abbrev pub IsPair : A → Type 0
IsPair type = (arm_class type ≡ 0x2000) × Shape.IsConcrete type × (error_weight type ≡ 0)

abbrev pub Joins : Option A → Type 0
Joins none = ⊥
Joins (some type) = IsPair type

pub binary_type-Joins :
    (t : L)
    → IsSymbol t
    → code L.left_assoc_class ≤ bindp t
    → bindp t < code L.expr_class
    → Joins (binary_type t)
unfolding binary_type bindp code arm_class
binary_type-Joins L.plus s a b = omega arith
binary_type-Joins L.minus s a b = omega arith
binary_type-Joins L.mul s a b = omega arith
binary_type-Joins L.div s a b = omega arith
binary_type-Joins L.mod_ s a b = omega arith
binary_type-Joins L.append s a b = omega arith
binary_type-Joins L.cmp s a b = omega arith
binary_type-Joins L.eq s a b = omega arith
binary_type-Joins L.neq s a b = omega arith
binary_type-Joins L.gt s a b = omega arith
binary_type-Joins L.lt s a b = omega arith
binary_type-Joins L.geq s a b = omega arith
binary_type-Joins L.leq s a b = omega arith
binary_type-Joins L.and_ s a b = omega arith
binary_type-Joins L.or_ s a b = omega arith
binary_type-Joins L.in_ s a b = omega arith
binary_type-Joins _ s a b = absurd (omega arith)

pub right_assoc_type-Joins :
    (t : L)
    → IsSymbol t
    → code L.right_assoc_class ≤ bindp t
    → bindp t < code L.left_assoc_class
    → Joins (right_assoc_type t)
unfolding right_assoc_type bindp code arm_class
right_assoc_type-Joins L.assign s a b = omega arith
right_assoc_type-Joins L.add_assign s a b = omega arith
right_assoc_type-Joins L.sub_assign s a b = omega arith
right_assoc_type-Joins L.mul_assign s a b = omega arith
right_assoc_type-Joins L.div_assign s a b = omega arith
right_assoc_type-Joins L.mod_assign s a b = omega arith
right_assoc_type-Joins L.append_assign s a b = omega arith
right_assoc_type-Joins L.insert s a b = omega arith
right_assoc_type-Joins L.comma s a b = omega arith
right_assoc_type-Joins L.colon s a b = omega arith
right_assoc_type-Joins _ s a b = absurd (omega arith)

pub separator_type-IsPair : (t : L) (type : A) → separator_type t ≡ some type → IsPair type
unfolding separator_type arm_class
separator_type-IsPair L.semicolon type e = ground arith
separator_type-IsPair L.newline type e = ground arith
separator_type-IsPair L.comma type e = ground arith
separator_type-IsPair L.else_ type e = ground arith
separator_type-IsPair _ type e = cc

module _ {w : ℕ} (left right : AstNode) (lex : Lexeme) (st : ParserState) where
  pub join-Post :
      (o : Option A) (otherwise : P AstNode)
      → Joins o
      → error_nodes left ≤ w
      → IsWellFormed left
      → IsWellFormed right
      → IsTokens st.rest
      → Returns (Post (error_nodes right + w) st) (join o left right lex otherwise st)
  unfolding error_nodes
  join-Post none otherwise j e l r t = absurd j
  join-Post (some type) otherwise j e l r t = returns (record {
    shape = (j.0, j.1, l, r);
    tokens = t;
    shorter = omega arith;
    reported = omega (arith, j.2);
  })
