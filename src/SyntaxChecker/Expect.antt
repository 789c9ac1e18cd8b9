-- ===== src/SyntaxChecker/Expect.antt =====
-- libjarl/syntax_checker.cpp: the `expect...` functions.
use jarl.Common.{List, [], ◌∷◌, if◌then◌else◌}
use jarl.Errors.{expected_value, expected_l_value, expected_identifier, expected_key_value_pair}
use jarl.Ast.{AstNode, AstNodeType as A, type_of, flags_of, expr_list_items}
use jarl.SyntaxChecker.Check.{C, ◌>>=◌, ◌>>◌, skip, is_value, is_lvalue, report, line_of}

unfoldable pub expected_value_error : AstNode → C (Unit {0})
expected_value_error n = report (line_of n) expected_value

unfoldable pub expected_key_value_pair_error : AstNode → C (Unit {0})
expected_key_value_pair_error n = report (line_of n) expected_key_value_pair

unfoldable pub expect_value : AstNode → C (Unit {0})
unfolding expected_value_error
expect_value n = do v ← is_value (flags_of n); if v then skip else expected_value_error n

-- The flags of a `Nop` are not read.
unfoldable pub expect_value_nop : AstNode → C (Unit {0})
unfolding expect_value
expect_value_nop n = elim (type_of n) [ A.nop ↦ skip | _ ↦ expect_value n ]

unfoldable pub expect_l_value : AstNode → C (Unit {0})
expect_l_value n = do
  v ← is_lvalue (flags_of n)
  if v then skip else report (line_of n) expected_l_value

unfoldable pub expect_identifier : AstNode → C (Unit {0})
expect_identifier n = elim (type_of n) [
  | A.identifier ↦ skip
  | _ ↦ report (line_of n) expected_identifier
]

unfoldable pub for_each : (AstNode → C (Unit {0})) → List AstNode → C (Unit {0})
for_each f [] = skip
for_each f (n ∷ ns) = do f n; for_each f ns

unfoldable pub expect_value_list : AstNode → C (Unit {0})
unfolding for_each expect_value
expect_value_list n = for_each expect_value (expr_list_items n)
