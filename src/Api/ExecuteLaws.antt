-- ===== src/Api/ExecuteLaws.antt =====
-- The stages of `jarl::execute` of libjarl/api.cpp, one after another.
use jarl.Common.{List, [], ◌∷◌, ◌≡◌, arith}
use jarl.Common.Outcome
use jarl.Common.Outcome.{Outcome, ok, Returns, returns, Returns-ok, Returns-map, Returns-bind}
use jarl.Errors.{Error}
use jarl.Lexeme.{Lexeme}
use jarl.Lexeme.Tokens.{IsTokens}
use jarl.Ast.{AstNode}
use jarl.Ast.Shape.{IsWellFormed, error_nodes}
use jarl.Parser.Climb.{parse}
use jarl.Parser.Total.{Parsed, parse-Parsed}
use jarl.SyntaxChecker.Validate.{validate}
use jarl.SyntaxChecker.Rules.{IsChecked, IsDeterminate, annotate}
use jarl.SyntaxChecker.Steps.{Counts}
use jarl.SyntaxChecker.Sound.{validate_sound}
use jarl.Api.Execute.{Stage, rejected, generate, unless_errors, execute}

-- Where a program ends up: rejected with an error, or with the code generator, as the tree that the
-- parser made without an error, its flags written, and an error in the list unless it is checked.
pub data Handled (lexemes : List Lexeme) : Stage → Type 0 where
  refused : {e : Error} {es : List Error} → Handled lexemes (rejected (e ∷ es))
  handed :
      (n : AstNode) {es : List Error}
      → parse lexemes [] ≡ ok (n, [])
      → IsWellFormed n
      → error_nodes n ≡ 0
      → Counts (IsChecked n) [] es
      → Handled lexemes (generate (annotate n) es)

-- The front end, on lexemes that end in `End` and whose tree is one in which the checker finds
-- written flags wherever it looks, returns: the program is rejected with at least one error, or
-- the parser has made a well-formed tree with no error and no error node, and the generator is
-- handed that tree with the flags that the rules give, and with an error exactly if a demand of
-- the rules is not met.
pub execute-Handled :
    (first : Lexeme) (rest : List Lexeme)
    → IsTokens rest
    → ((n : AstNode) (es : List Error) → parse (first ∷ rest) [] ≡ ok (n, es) → IsDeterminate n)
    → Returns (Handled (first ∷ rest)) (execute (first ∷ rest) [])
unfolding execute
execute-Handled first rest t d =
    let (r, e, p) = Returns-ok (parse-Parsed first rest [] t) in rw e (after_parse r.0 r.1 e p)
  where
    after_parse :
        (n : AstNode) (es : List Error)
        → parse (first ∷ rest) [] ≡ ok (n, es)
        → Parsed [] (n, es)
        → Returns
            (Handled (first ∷ rest))
            (unless_errors es (Outcome.bind (validate n es) (λ s. ok (generate s.0 s.1))))
    after_parse n (x ∷ es) e p = returns refused
    after_parse n [] e p =
        let clean : error_nodes n ≡ 0 = omega (arith, p.reported) in
        Returns-bind (validate_sound n [] p.shape clean (d n [] e))
          (λ s h. rw h.0 (returns (handed n e p.shape clean h.1)))
