-- ===== src/SyntaxChecker/Validate.antt =====
-- libjarl/syntax_checker.cpp, `SyntaxChecker::validateSyntax`: first the children, then the node by
-- its class and its type. Each `visit` function returns the flags that the node gets, given those
-- it has; a node whose type does not fit the arm of its union is a `fault`.
use jarl.Common.{Bool, true, false, ◌==◌, if◌then◌else◌, none}
use jarl.Errors.{expected_in, expected_assignment, expected_expression_list}
use jarl.Ast.{
  AstNode, leaf, one, two, AstNodeType as A, Flags, node_class, type_of, flags_of, expr_list_items,
}
use jarl.SyntaxChecker.Check.{C, ◌>>=◌, ◌>>◌, pure, stop, skip, is_value, report, children}
use jarl.SyntaxChecker.Expect.{
  expected_value_error, expected_key_value_pair_error, expect_value, expect_value_nop,
  expect_l_value, expect_identifier, for_each, expect_value_list,
}

pub data NodeClass : Type 0 where
  error_ value_ unary_expr binary_expr branch_expr assign_expr other : NodeClass

-- `switch(type & ~0xff)`
unfoldable pub class_of : A → NodeClass
unfolding node_class
class_of t =
    if node_class t == 0x0100
    then NodeClass.error_
    else if node_class t == 0x0200
    then NodeClass.value_
    else if node_class t == 0x1100
    then NodeClass.unary_expr
    else if node_class t == 0x2100
    then NodeClass.binary_expr
    else if node_class t == 0x2200
    then NodeClass.branch_expr
    else if node_class t == 0x2400
    then NodeClass.assign_expr
    else NodeClass.other

abbrev pub is_type : A → A → Bool
is_type A.expr_list A.expr_list = true
is_type A.in_ A.in_ = true
is_type A.assign A.assign = true
is_type A.else_ A.else_ = true
is_type _ _ = false

-- `node->flags = value? Value : None`
abbrev pub flags_if : Bool → Flags
flags_if v = if v then Flags.value else Flags.none

unfoldable pub visit_leaf : A → Flags → C Flags
unfolding class_of
visit_leaf t f = elim (class_of t) [
  | NodeClass.error_ ↦ stop
  | NodeClass.value_ ↦ pure (elim t [ A.identifier ↦ Flags.lvalue | _ ↦ Flags.value ])
  | NodeClass.other ↦ pure (elim t [ A.nop ↦ Flags.none | _ ↦ f ])
  | _ ↦ stop
]

-- An entry of a table.
unfoldable pub expect_entry : AstNode → C (Unit {0})
unfolding expect_value expected_key_value_pair_error
expect_entry n = elim (type_of n) [
  | A.key_value_pair ↦ do ab ← children n; expect_value ab.0; expect_value ab.1
  | A.nop ↦ skip
  | _ ↦ expected_key_value_pair_error n
]

-- `if(n->type == ExprList || !n->isValue()) expectedValueError_(n);`
unfoldable pub expect_single : AstNode → C (Unit {0})
unfolding expect_value expected_value_error
expect_single n = if is_type (type_of n) A.expr_list then expected_value_error n else expect_value n

-- A half of a slice: a list is an error of its own, and then goes through the common test.
unfoldable pub expect_bound : AstNode → C (Unit {0})
unfolding expected_value_error
expect_bound n = if is_type (type_of n) A.expr_list then expected_value_error n else skip

unfoldable pub visit_var : Flags → AstNode → C Flags
visit_var f c =
    if is_type (type_of c) A.assign
    then (do ab ← children c; expect_l_value ab.0; expect_value ab.1; pure Flags.none)
    else (do report none expected_assignment; pure f)

unfoldable pub visit_assert : Flags → AstNode → C Flags
unfolding expect_single
visit_assert f c =
    if is_type (type_of c) A.expr_list
    then (do ab ← children c; expect_single ab.0; expect_single ab.1; pure Flags.none)
    else (do report none expected_expression_list; pure f)

unfoldable pub visit_one : A → Flags → AstNode → C Flags
unfolding class_of expect_entry
visit_one t f c = elim (class_of t) [
  | NodeClass.unary_expr ↦ do
    elim t [ A.move ↦ expect_l_value c | _ ↦ expect_value c ]
    pure Flags.value
  | NodeClass.other ↦ elim t [
    | A.code_block ↦ do v ← is_value (flags_of c); pure (flags_if v)
    | A.array ↦ do for_each expect_value_nop (expr_list_items c); pure Flags.value
    | A.table ↦ do for_each expect_entry (expr_list_items c); pure Flags.value
    | A.recurse ↦ do expect_value_list c; pure Flags.value
    | A.var ↦ visit_var f c
    | A.return ↦ do expect_value_nop c; pure Flags.none
    | A.print ↦ do expect_value_list c; pure Flags.none
    | A.assert ↦ visit_assert f c
    | _ ↦ pure f
  ]
  | _ ↦ stop
]

-- `if(second->type == Else && both branches are values) Value else None`
unfoldable pub visit_if : AstNode → AstNode → C Flags
visit_if a b = do
  expect_value a
  if is_type (type_of b) A.else_
      then (do
        xy ← children b
        v ← is_value (flags_of xy.0)
        if v then (do w ← is_value (flags_of xy.1); pure (flags_if w)) else pure Flags.none)
      else pure Flags.none

unfoldable pub visit_index : AstNode → AstNode → C Flags
unfolding expect_bound
visit_index a b = do
  expect_value a
  if is_type (type_of b) A.expr_list
      then (do
        xy ← children b
        expect_bound xy.0
        expect_bound xy.1
        expect_value_nop xy.0
        expect_value_nop xy.1
        pure Flags.lvalue)
      else (do expect_value b; pure Flags.lvalue)

-- The `in` expression of a loop, and its own operands.
unfoldable pub visit_in : Flags → AstNode → C Flags
visit_in f stepper =
    if is_type (type_of stepper) A.in_
    then (do xy ← children stepper; expect_identifier xy.0; expect_value xy.1; pure Flags.none)
    else (do report none expected_in; pure f)

unfoldable pub visit_for : Flags → AstNode → C Flags
unfolding visit_in
visit_for f stepper =
    if is_type (type_of stepper) A.expr_list
    then (do xy ← children stepper; expect_identifier xy.0; visit_in f xy.1)
    else visit_in f stepper

unfoldable pub visit_two : A → Flags → AstNode → AstNode → C Flags
unfolding class_of
visit_two t f a b = elim (class_of t) [
  | NodeClass.binary_expr ↦ do expect_value a; expect_value b; pure Flags.value
  | NodeClass.branch_expr ↦ elim t [
    | A.and_ ↦ do expect_value a; expect_value b; pure Flags.value
    | A.or_ ↦ do expect_value a; expect_value b; pure Flags.value
    | A.if_ ↦ visit_if a b
    | _ ↦ pure f
  ]
  | NodeClass.assign_expr ↦ do expect_l_value a; expect_value b; pure Flags.none
  | NodeClass.other ↦ elim t [
    | A.seq ↦ do v ← is_value (flags_of b); pure (flags_if v)
    | A.function ↦ do for_each expect_identifier (expr_list_items a); pure Flags.value
    | A.call ↦ do expect_value a; expect_value_list b; pure Flags.value
    | A.index ↦ visit_index a b
    | A.while ↦ do expect_value a; pure Flags.none
    | A.for ↦ visit_for f a
    | _ ↦ pure f
  ]
  | _ ↦ stop
]

unfoldable pub validate : AstNode → C AstNode
validate (leaf t f p v) = do f' ← visit_leaf t f; pure (leaf t f' p v)
validate (one t f p c) = do c' ← validate c; f' ← visit_one t f c'; pure (one t f' p c')
validate (two t f p a b) = do
  a' ← validate a
  b' ← validate b
  f' ← visit_two t f a' b'
  pure (two t f' p a' b')
