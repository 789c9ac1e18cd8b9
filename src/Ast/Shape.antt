-- ===== src/Ast/Shape.antt =====
-- The shape of a tree of libjarl/ast.h: each node's type agrees with the arm of its union.
use jarl.Common.{ℕ, ◌+◌, ◌≡◌, ◌≢◌, ◌%◌}
use jarl.Lexeme.{Payload, no_value, int_value, float_value, bool_value, string_value}
use jarl.Ast.{AstNodeType, AstNode, leaf, one, two, code, arm_class}

-- The payload that a leaf of each type holds.
abbrev pub HasPayload : AstNodeType → Payload → Type 0
HasPayload AstNodeType.int (int_value i) = Unit
HasPayload AstNodeType.float (float_value f) = Unit
HasPayload AstNodeType.bool (bool_value b) = Unit
HasPayload AstNodeType.string (string_value s) = Unit
HasPayload AstNodeType.identifier (string_value s) = Unit
HasPayload AstNodeType.null no_value = Unit
HasPayload AstNodeType.nop no_value = Unit
HasPayload AstNodeType.parse_error no_value = Unit
HasPayload _ _ = ⊥

-- An enumerator that names a node, and not a class of nodes.
abbrev pub IsConcrete : AstNodeType → Type 0
IsConcrete t = code t % 0x100 ≢ 0

abbrev pub IsWellFormed : AstNode → Type 0
IsWellFormed (leaf t _ _ v) = HasPayload t v
IsWellFormed (one t _ _ c) = (arm_class t ≡ 0x1000) × IsConcrete t × IsWellFormed c
IsWellFormed (two t _ _ a b) =
    (arm_class t ≡ 0x2000) × IsConcrete t × IsWellFormed a × IsWellFormed b

-- The nodes of the class `Error`.
abbrev pub error_weight : AstNodeType → ℕ
error_weight AstNodeType.lex_error = 1
error_weight AstNodeType.parse_error = 1
error_weight _ = 0

unfoldable pub error_nodes : AstNode → ℕ
error_nodes (leaf t _ _ _) = error_weight t
error_nodes (one t _ _ c) = error_weight t + error_nodes c
error_nodes (two t _ _ a b) = error_weight t + error_nodes a + error_nodes b
