-- ===== src/Api/Execute.antt =====
-- libjarl/api.cpp: `jarl::execute` up to the code generator. The lexer's lexemes and errors are its
-- input.
use jarl.Common.{List, [], ◌∷◌}
use jarl.Common.Outcome
use jarl.Common.Outcome.{Outcome, ok}
use jarl.Errors.{Error}
use jarl.Lexeme.{Lexeme}
use jarl.Ast.{AstNode}
use jarl.Parser.Climb.{parse}
use jarl.SyntaxChecker.Validate.{validate}

-- What becomes of a program: its errors are printed, or its tree and the errors found so far go to
-- the code generator.
pub data Stage : Type 0 where
  rejected : List Error → Stage
  generate : AstNode → List Error → Stage

-- `if(errors.size() > 0){ ...; return; }`
abbrev pub unless_errors : List Error → Outcome Stage → Outcome Stage
unless_errors [] k = k
unless_errors (e ∷ es) k = ok (rejected (e ∷ es))

-- The errors of the syntax checker are first looked at after the code generator has run.
unfoldable pub execute : List Lexeme → List Error → Outcome Stage
execute lexemes lex_errors = unless_errors lex_errors (
    Outcome.bind (parse lexemes [])
      (λ r. unless_errors r.1 (Outcome.bind (validate r.0 r.1) (λ s. ok (generate s.0 s.1)))))
