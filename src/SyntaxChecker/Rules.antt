-- ===== src/SyntaxChecker/Rules.antt =====
-- An independent description of what libjarl/syntax_checker.cpp demands of a tree: which nodes are
-- values, and what each node demands of its children.
use jarl.Common.{Bool, true, false, ◌≡◌, ◌≢◌, All}
use jarl.Ast.{AstNode, leaf, one, two, AstNodeType as A, Flags, type_of, expr_list_items}

abbrev pub is_valued : Flags → Bool
is_valued Flags.value = true
is_valued Flags.lvalue = true
is_valued _ = false

abbrev pub value_if : Bool → Flags
value_if true = Flags.value
value_if false = Flags.none

-- `else` with a value on both sides.
abbrev pub both : Bool → Bool → Bool
both true b = b
both false b = false

-- The flags of a `for`, a `var` and an `assert`, which keep theirs if the shape is wrong.
abbrev pub in_kind : Flags → AstNode → Flags
in_kind f (two A.in_ _ _ _ _) = Flags.none
in_kind f n = f

abbrev pub stepper_kind : Flags → AstNode → Flags
stepper_kind f (two A.expr_list _ _ _ s) = in_kind f s
stepper_kind f n = in_kind f n

abbrev pub var_kind : Flags → AstNode → Flags
var_kind f (two A.assign _ _ _ _) = Flags.none
var_kind f n = f

abbrev pub assert_kind : Flags → AstNode → Flags
assert_kind f (two A.expr_list _ _ _ _) = Flags.none
assert_kind f n = f

-- What a node is, by its shape. A node that is only a part of another keeps the flags it came with,
-- and so does a `var`, a `for` or an `assert` of a wrong shape.
unfoldable pub kind : AstNode → Flags
kind (leaf A.identifier f _ _) = Flags.lvalue
kind (leaf A.nop f _ _) = Flags.none
kind (leaf A.null f _ _) = Flags.value
kind (leaf A.int f _ _) = Flags.value
kind (leaf A.float f _ _) = Flags.value
kind (leaf A.bool f _ _) = Flags.value
kind (leaf A.string f _ _) = Flags.value
kind (leaf _ f _ _) = f
kind (one A.code_block f _ c) = value_if (is_valued (kind c))
kind (one A.var f _ c) = var_kind f c
kind (one A.assert f _ c) = assert_kind f c
kind (one A.return f _ c) = Flags.none
kind (one A.print f _ c) = Flags.none
kind (one _ f _ c) = Flags.value
kind (two A.seq f _ a b) = value_if (is_valued (kind b))
kind (two A.if_ f _ a (two A.else_ _ _ x y)) =
    value_if (both (is_valued (kind x)) (is_valued (kind y)))
kind (two A.if_ f _ a b) = Flags.none
kind (two A.index f _ a b) = Flags.lvalue
kind (two A.while f _ a b) = Flags.none
kind (two A.for f _ a b) = stepper_kind f a
kind (two A.assign f _ a b) = Flags.none
kind (two A.add_assign f _ a b) = Flags.none
kind (two A.sub_assign f _ a b) = Flags.none
kind (two A.mul_assign f _ a b) = Flags.none
kind (two A.div_assign f _ a b) = Flags.none
kind (two A.mod_assign f _ a b) = Flags.none
kind (two A.append_assign f _ a b) = Flags.none
kind (two A.insert f _ a b) = Flags.none
kind (two A.else_ f _ a b) = f
kind (two A.expr_list f _ a b) = f
kind (two A.key_value_pair f _ a b) = f
kind (two A.then_ f _ a b) = f
kind (two _ f _ a b) = Flags.value

-- What is demanded where a value is expected, where an l-value or an identifier is, where a node's
-- flags only decide those of its parent, and where the shape is wrong.
pub record Demand : Type 1 where
  pub V : AstNode → Type 0
  pub L : AstNode → Type 0
  pub I : AstNode → Type 0
  pub R : AstNode → Type 0
  pub Bad : Type 0

module _ (d : Demand) where
  open d use {V, L, I, R, Bad}

  abbrev pub OrNop : AstNode → Type 0
  OrNop (leaf A.nop _ _ _) = Unit
  OrNop n = V n

  abbrev pub NoList : AstNode → Type 0
  NoList (two A.expr_list _ _ _ _) = Bad
  NoList n = Unit

  abbrev pub Single : AstNode → Type 0
  Single (two A.expr_list _ _ _ _) = Bad
  Single n = V n

  abbrev pub Entry : AstNode → Type 0
  Entry (two A.key_value_pair _ _ k v) = V k × V v
  Entry (leaf A.nop _ _ _) = Unit
  Entry n = Bad

  abbrev pub InExpr : AstNode → Type 0
  InExpr (two A.in_ _ _ x y) = I x × V y
  InExpr n = Bad

  abbrev pub Stepper : AstNode → Type 0
  Stepper (two A.expr_list _ _ x s) = I x × InExpr s
  Stepper n = InExpr n

  abbrev pub Branches : AstNode → Type 0
  Branches (two A.else_ _ _ x y) = R x × (is_valued (kind x) ≡ true → R y)
  Branches n = Unit

  abbrev pub Bounds : AstNode → Type 0
  Bounds (two A.expr_list _ _ x y) = NoList x × (NoList y × (OrNop x × OrNop y))
  Bounds n = V n

  abbrev pub Assigned : AstNode → Type 0
  Assigned (two A.assign _ _ a b) = L a × V b
  Assigned n = Bad

  abbrev pub Message : AstNode → Type 0
  Message (two A.expr_list _ _ a b) = Single a × Single b
  Message n = Bad

  abbrev pub DemandsOne : A → AstNode → Type 0
  DemandsOne A.neg c = V c
  DemandsOne A.not_ c = V c
  DemandsOne A.move c = L c
  DemandsOne A.code_block c = R c
  DemandsOne A.array c = All OrNop (expr_list_items c)
  DemandsOne A.table c = All Entry (expr_list_items c)
  DemandsOne A.recurse c = All V (expr_list_items c)
  DemandsOne A.print c = All V (expr_list_items c)
  DemandsOne A.return c = OrNop c
  DemandsOne A.var c = Assigned c
  DemandsOne A.assert c = Message c
  DemandsOne _ c = Unit

  abbrev pub DemandsTwo : A → AstNode → AstNode → Type 0
  DemandsTwo A.seq a b = R b
  DemandsTwo A.else_ a b = Unit
  DemandsTwo A.expr_list a b = Unit
  DemandsTwo A.key_value_pair a b = Unit
  DemandsTwo A.then_ a b = Unit
  DemandsTwo A.if_ a b = V a × Branches b
  DemandsTwo A.index a b = V a × Bounds b
  DemandsTwo A.call a b = V a × All V (expr_list_items b)
  DemandsTwo A.function a b = All I (expr_list_items a)
  DemandsTwo A.while a b = V a
  DemandsTwo A.for a b = Stepper a
  DemandsTwo A.assign a b = L a × V b
  DemandsTwo A.add_assign a b = L a × V b
  DemandsTwo A.sub_assign a b = L a × V b
  DemandsTwo A.mul_assign a b = L a × V b
  DemandsTwo A.div_assign a b = L a × V b
  DemandsTwo A.mod_assign a b = L a × V b
  DemandsTwo A.append_assign a b = L a × V b
  DemandsTwo A.insert a b = L a × V b
  DemandsTwo _ a b = V a × V b

  -- The demands of every node of a tree.
  abbrev pub Demands : AstNode → Type 0
  Demands (leaf _ _ _ _) = Unit
  Demands (one t _ _ c) = Demands c × DemandsOne t c
  Demands (two t _ _ a b) = Demands a × (Demands b × DemandsTwo t a b)

abbrev pub IsValue : AstNode → Type 0
IsValue n = is_valued (kind n) ≡ true

abbrev pub IsLValue : AstNode → Type 0
IsLValue n = kind n ≡ Flags.lvalue

abbrev pub IsIdentifier : AstNode → Type 0
IsIdentifier n = type_of n ≡ A.identifier

-- The rules of the language: a tree that the checker has nothing to say about.
abbrev pub rules : Demand
rules = record { V = IsValue; L = IsLValue; I = IsIdentifier; R = λ _. Unit; Bad = ⊥ }

abbrev pub IsChecked : AstNode → Type 0
IsChecked = Demands rules

-- The node's flags have been written when the checker looks at them.
abbrev pub IsWritten : AstNode → Type 0
IsWritten n = kind n ≢ Flags.unset

-- Every read of flags that the checker makes finds flags that have been written.
abbrev pub reads : Demand
reads = record { V = IsWritten; L = IsWritten; I = λ _. Unit; R = IsWritten; Bad = Unit }

abbrev pub IsDeterminate : AstNode → Type 0
IsDeterminate = Demands reads

-- The tree with the flags that the checker writes.
unfoldable pub annotate : AstNode → AstNode
annotate (leaf t f p v) = leaf t (kind (leaf t f p v)) p v
annotate (one t f p c) = one t (kind (one t f p c)) p (annotate c)
annotate (two t f p a b) = two t (kind (two t f p a b)) p (annotate a) (annotate b)
