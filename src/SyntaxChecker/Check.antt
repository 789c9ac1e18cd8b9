-- ===== src/SyntaxChecker/Check.antt =====
-- libjarl/ast.h, `isValue` and `isLValue`, and the list of errors that libjarl/syntax_checker.cpp
-- appends to, as a monad.
use jarl.Common.{ℕ, Bool, true, false, List, [], ◌∷◌, ◌++◌, Option, some}
use jarl.Common.Outcome
use jarl.Common.Outcome.{Outcome, ok, fault}
use jarl.Errors.{Error, Message}
use jarl.Ast.{AstNode, two, Flags, pos_of}

abbrev pub C : Type 0 → Type 0
C T = List Error → Outcome (T × List Error)

infixl 5 ◌>>=◌ ◌>>◌
abbrev pub ◌>>=◌ : {T U : Type 0} → C T → (T → C U) → C U
◌>>=◌ m f errors = Outcome.bind (m errors) (λ r. f r.0 r.1)

abbrev pub ◌>>◌ : {U : Type 0} → C (Unit {0}) → C U → C U
m >> k = m >>= λ _. k

abbrev pub pure : {T : Type 0} → T → C T
pure t errors = ok (t, errors)

abbrev pub stop : {T : Type 0} → C T
stop errors = fault

abbrev pub skip : C (Unit {0})
skip = pure tt

-- ASTNode::isValue
unfoldable pub is_value : Flags → C Bool
is_value Flags.unset = stop
is_value Flags.none = pure false
is_value Flags.value = pure true
is_value Flags.lvalue = pure true

-- ASTNode::isLValue
unfoldable pub is_lvalue : Flags → C Bool
is_lvalue Flags.unset = stop
is_lvalue Flags.none = pure false
is_lvalue Flags.value = pure false
is_lvalue Flags.lvalue = pure true

unfoldable pub report : Option ℕ → Message → C (Unit {0})
report line msg errors = ok (tt, errors ++ record { line = line; message = msg } ∷ [])

abbrev pub line_of : AstNode → Option ℕ
line_of n = some ((pos_of n).0)

-- `node->children.first` and `node->children.second`
abbrev pub children : AstNode → C (AstNode × AstNode)
children (two _ _ _ a b) = pure (a, b)
children _ = stop
