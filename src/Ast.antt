-- ===== src/Ast.antt =====
-- libjarl/ast.h and libjarl/ast.cpp: node types with their numbers, nodes, the flags that
-- the syntax checker writes, and the iteration over an expression list.
pub mod Shape
use jarl.Common.{ℕ, ◌/◌, ◌*◌, List, [], ◌∷◌}
use jarl.Lexeme.{Payload, no_value, Pos}

pub data AstNodeType : Type 0 where
  leaf_class nop : AstNodeType
  error_class lex_error parse_error : AstNodeType
  value_class null int float bool string identifier : AstNodeType
  one_child code_block array table var return recurse print assert : AstNodeType
  unary_expr neg not_ move : AstNodeType
  two_children seq else_ while for index call expr_list key_value_pair then_ function : AstNodeType
  binary_expr add sub mul div mod_ append cmp eq neq gt lt geq leq in_ apply : AstNodeType
  branch_expr and_ or_ if_ : AstNodeType
  assign_expr assign add_assign sub_assign mul_assign div_assign mod_assign : AstNodeType
  append_assign insert : AstNodeType

-- The value of an enumerator.
unfoldable pub code : AstNodeType → ℕ
code leaf_class = 0x0000
code nop = 0x0001
code error_class = 0x0100
code lex_error = 0x0101
code parse_error = 0x0102
code value_class = 0x0200
code null = 0x0201
code int = 0x0202
code float = 0x0203
code bool = 0x0204
code string = 0x0205
code identifier = 0x0206
code one_child = 0x1000
code code_block = 0x1001
code array = 0x1002
code table = 0x1003
code var = 0x1004
code return = 0x1005
code recurse = 0x1006
code print = 0x1007
code assert = 0x1008
code unary_expr = 0x1100
code neg = 0x1101
code not_ = 0x1102
code move = 0x1103
code two_children = 0x2000
code seq = 0x2001
code else_ = 0x2002
code while = 0x2003
code for = 0x2004
code index = 0x2005
code call = 0x2006
code expr_list = 0x2007
code key_value_pair = 0x2008
code then_ = 0x2009
code function = 0x200a
code binary_expr = 0x2100
code add = 0x2101
code sub = 0x2102
code mul = 0x2103
code div = 0x2104
code mod_ = 0x2105
code append = 0x2106
code cmp = 0x2107
code eq = 0x2108
code neq = 0x2109
code gt = 0x210a
code lt = 0x210b
code geq = 0x210c
code leq = 0x210d
code in_ = 0x210e
code apply = 0x210f
code branch_expr = 0x2200
code and_ = 0x2201
code or_ = 0x2202
code if_ = 0x2203
code assign_expr = 0x2400
code assign = 0x2401
code add_assign = 0x2402
code sub_assign = 0x2403
code mul_assign = 0x2404
code div_assign = 0x2405
code mod_assign = 0x2406
code append_assign = 0x2407
code insert = 0x2408

-- `type & ~0xfff`, which names the arm of the union, and `type & ~0xff`, the class of the node.
unfoldable pub arm_class : AstNodeType → ℕ
unfolding code
arm_class t = code t / 0x1000 * 0x1000

unfoldable pub node_class : AstNodeType → ℕ
unfolding code
node_class t = code t / 0x100 * 0x100

-- The source's constructors do not write the flags: `unset` stands for what they hold until then.
pub data Flags : Type 0 where
  unset none value lvalue : Flags

pub data AstNode : Type 0 where
  leaf : AstNodeType → Flags → Pos → Payload → AstNode
  one : AstNodeType → Flags → Pos → AstNode → AstNode
  two : AstNodeType → Flags → Pos → AstNode → AstNode → AstNode

abbrev pub new : AstNodeType → Pos → AstNode
new t p = leaf t unset p no_value

abbrev pub new_value : AstNodeType → Payload → Pos → AstNode
new_value t v p = leaf t unset p v

abbrev pub new_one : AstNodeType → AstNode → Pos → AstNode
new_one t c p = one t unset p c

abbrev pub new_two : AstNodeType → AstNode → AstNode → Pos → AstNode
new_two t a b p = two t unset p a b

abbrev pub type_of : AstNode → AstNodeType
type_of (leaf t _ _ _) = t
type_of (one t _ _ _) = t
type_of (two t _ _ _ _) = t

abbrev pub flags_of : AstNode → Flags
flags_of (leaf _ f _ _) = f
flags_of (one _ f _ _) = f
flags_of (two _ f _ _ _) = f

abbrev pub pos_of : AstNode → Pos
pos_of (leaf _ _ p _) = p
pos_of (one _ _ p _) = p
pos_of (two _ _ p _ _) = p

-- `for(auto it = node->exprListIterator(); it != nullptr; ++it)`: the nodes that `it.get()` gives.
-- The first node is dropped if it is a `Nop`; a later one is not.
unfoldable pub expr_list_from : AstNode → List AstNode
expr_list_from (two expr_list _ _ a b) = a ∷ expr_list_from b
expr_list_from n = n ∷ []

unfoldable pub expr_list_items : AstNode → List AstNode
unfolding expr_list_from
expr_list_items (leaf nop _ _ _) = []
expr_list_items n = expr_list_from n
