-- ===== src/Tests/Parser.antt =====
-- The front end on `1 + 2 * 3` and other small expressions.
use mathlib.Core.Path.{subst}
use jarl.Common.{length, ◌++◌, arith, ◌≡◌, refl, List, [], ◌∷◌, pos}
use jarl.Common.Outcome.{ok, Returns}
use jarl.Errors.{Error}
use jarl.Lexeme.{LexemeType, of_type, code, int_value}
use jarl.Lexeme.Tokens.{IsTokens}
use jarl.Ast
use jarl.Ast.{arm_class, AstNode, leaf, two, AstNodeType, Flags, new_value, new_two}
use jarl.Ast.Shape.{IsWellFormed, error_nodes}
use jarl.Parser.State.{current, look, next, advance, bindp}
use jarl.Parser.Nud.{nud, nud_of}
use jarl.Parser.Led.{led, left_assoc, binary_type}
use jarl.Parser.Grammar.{
  Operator, Term, number, name, infix_, Bracket, postfix, print, tree as tree_of,
}
use jarl.Parser.RoundTrip.{parse-print}
use jarl.Parser.Minus.{mul, product_minus, minus_of_product, parse-product_minus}
use jarl.Parser.Climb.{parse, expression, expression_body, led_loop}
use jarl.Parser.Total.{Parsed, parse-Parsed}
use jarl.SyntaxChecker.Validate.{validate}
use jarl.SyntaxChecker.Rules.{kind, annotate, IsChecked, IsDeterminate}
use jarl.SyntaxChecker.Steps.{Counts}
use jarl.SyntaxChecker.Sound.{validate_sound}
use jarl.Api.Execute.{execute}
use jarl.Api.ExecuteLaws.{Handled, execute-Handled}
use jarl.Tests.Inputs.{begin, sum}

abbrev tree : AstNode
tree =
    new_two AstNodeType.add (new_value AstNodeType.int (int_value (pos 1)) (1, 0))
      (new_two AstNodeType.mul (new_value AstNodeType.int (int_value (pos 2)) (1, 4))
        (new_value AstNodeType.int (int_value (pos 3)) (1, 8)) (1, 6))
      (1, 2)

-- `*` binds more tightly than `+`.
parse-sum : parse (begin ∷ sum) [] ≡ ok (tree, [])
unfolding parse expression expression_body led_loop nud nud_of led left_assoc binary_type current
    look next advance bindp code
parse-sum = refl

sum-IsTokens : IsTokens sum
unfolding code
sum-IsTokens = (
  omega arith,
  tt,
  (omega arith, tt, (omega arith, tt, (omega arith, tt, (omega arith, tt, refl)))),
)

tree-IsDeterminate : IsDeterminate tree
unfolding kind
tree-IsDeterminate = (tt, ((tt, (tt, (λ e. cc, λ e. cc))), (λ e. cc, λ e. cc)))

tree-IsWellFormed : IsWellFormed tree
unfolding Ast.code arm_class
tree-IsWellFormed = (refl, omega arith, tt, (refl, omega arith, tt, tt))

error_nodes-tree : error_nodes tree ≡ 0
unfolding error_nodes
error_nodes-tree = refl

parsed-IsDeterminate :
    (n : AstNode) (es : List Error) → parse (begin ∷ sum) [] ≡ ok (n, es) → IsDeterminate n
parsed-IsDeterminate n es e = subst IsDeterminate same tree-IsDeterminate
  where
    same : tree ≡ n
    same = cc (parse-sum, e)

parse-Parsed_example : Returns (Parsed []) (parse (begin ∷ sum) [])
parse-Parsed_example = parse-Parsed begin sum [] sum-IsTokens

validate_sound_example :
    Returns (λ r. (r.0 ≡ annotate tree) × Counts (IsChecked tree) [] r.1) (validate tree [])
validate_sound_example =
    validate_sound tree [] tree-IsWellFormed error_nodes-tree tree-IsDeterminate

execute-Handled_example : Returns (Handled (begin ∷ sum)) (execute (begin ∷ sum) [])
execute-Handled_example = execute-Handled begin sum sum-IsTokens parsed-IsDeterminate

-- `(x + 2) * 3 = y(2)`
abbrev product : Term
product =
    infix_ Operator.assign (1, 12)
      (infix_ Operator.mul (1, 8)
        (infix_ Operator.add (1, 3) (name (0x78 ∷ []) (1, 1)) (number (pos 2) (1, 5)))
        (number (pos 3) (1, 10)))
      (postfix Bracket.call (1, 15) (name (0x79 ∷ []) (1, 14)) (number (pos 2) (1, 16)))

length-print : length (print product) ≡ 12
unfolding print
length-print = refl

parse-print_example :
    parse (begin ∷ (print product ++ (of_type LexemeType.end (1, 18) ∷ []))) []
    ≡ ok (tree_of product, [])
parse-print_example = parse-print product begin (1, 18) []

-- `(x + 2) * -y(2)`
abbrev factor_term : Term
factor_term = infix_ Operator.add (1, 3) (name (0x78 ∷ []) (1, 1)) (number (pos 2) (1, 5))

abbrev summand_term : Term
summand_term = postfix Bracket.call (1, 12) (name (0x79 ∷ []) (1, 11)) (number (pos 2) (1, 13))

parse-product_minus_example :
    parse
      (begin
        ∷ (product_minus Operator.mul (1, 8) (1, 10) factor_term summand_term
            ++ (of_type LexemeType.end (1, 15) ∷ [])))
      []
    ≡ ok (minus_of_product Operator.mul (1, 8) (1, 10) factor_term summand_term, [])
parse-product_minus_example =
    parse-product_minus Operator.mul (1, 8) (1, 10) factor_term summand_term begin (1, 15) [] mul
