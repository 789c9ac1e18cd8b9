-- ===== src/CodeGenerator/Thread.antt =====
-- libjarl/code_generator.cpp: `threadAST`, `threadRexpr` and `threadInsRexpr`. A node hands its own
-- code the steps of its children; which part of a child a step is of is a `Part`.
use jarl.Common.{
  ℕ, suc, ◌+◌, ◌-◌, ◌%◌, ◌^◌, Bool, true, false, List, [], ◌∷◌, Option, none, some, ◌&&◌, ltb,
  if◌then◌else◌, length, leb_ℤ, ℤ, pos, negsuc, pos_part, neg_part,
}
use jarl.Common.Outcome.{ok}
use jarl.Lexeme.{Float, Bytes, Pos, Payload, int_value, float_value, bool_value, string_value}
use jarl.Errors.{undeclared_identifier}
use jarl.Ast.{AstNode, leaf, two, AstNodeType as A, Flags, type_of, flags_of, expr_list_items}
use jarl.Value.Data.{TypedValue}
use jarl.OpCodes.{OpCode, code_of, word, with_flag}
use jarl.CodeGenerator.Context.{
  VarAllocMap, Gen, ◌>>◌, skip, stop, stack_pos_local, stack_pos_capture, put, report, enter_scope,
  leave_scope, find_alloc, set_direct, set_base, push_constant,
}

-- `threadAST` of the node, or of the node if it is not a `Nop`; of all such items of an expression
-- list, or of all its items; of an entry or the entries of a table; of the first or the second child
-- of the node; of what a loop goes through; and the two other functions.
pub data Part : Type 0 where
  whole item items every entry entries first second iterated rexpr ins_rexpr : Part

-- The steps of a child, and the child for the tests on its type.
abbrev pub Child : Type 0
Child = Part → Gen

-- `code.size()` at this point.
abbrev pub at_size : (ℕ → Gen) → Gen
at_size k c = k (length (c.out.code)) c

-- ASTNode::isValue; flags that were not written are no `bool`.
unfoldable pub if_value : AstNode → Gen → Gen
if_value n m = elim (flags_of n) [ Flags.unset ↦ stop | Flags.none ↦ skip | _ ↦ m ]

-- `static_cast<OpCodes::Type>(i)`
abbrev pub int_word : ℤ → ℕ
int_word i = (pos_part i + (2 ^ 16 - neg_part i % 2 ^ 16)) % 2 ^ 16

abbrev pub is_short : ℤ → Bool
is_short i = leb_ℤ i (pos 0x7fff) && leb_ℤ (negsuc 0x7fff) i

abbrev pub is_nop : AstNode → Bool
is_nop n = elim (type_of n) [ A.nop ↦ true | _ ↦ false ]

-- How many items are not a `Nop`.
unfoldable pub count : List AstNode → ℕ
count [] = 0
count (n ∷ ns) = if is_nop n then count ns else suc (count ns)

-- A variable of the function around is captured at its first use.
unfoldable pub capture : ℕ → Bytes → Gen
capture line x c =
    let place = word (with_flag (c.captures) stack_pos_capture) in
    ((λ c.
          ok (record c {
            captures = suc (c.captures);
            var_allocs = set_base x place (c.var_allocs);
          }))
        >> put place line)
      c

unfoldable pub undeclared : ℕ → Gen
undeclared line = report line undeclared_identifier >> put (code_of OpCode.nop) line

unfoldable pub thread_identifier : ℕ → Bytes → Gen
unfolding capture undeclared
thread_identifier line x = put (code_of OpCode.push + 0x8000) line >> (λ c.
    elim (find_alloc (c.var_allocs) x) [
      | some k ↦ put k line c
      | none ↦ elim (c.context_var_allocs) [
        | none ↦ undeclared line c
        | some outer ↦ elim (find_alloc outer x) [
          | none ↦ undeclared line c
          | some _ ↦ capture line x c
        ]
      ]
    ])

unfoldable pub rexpr_identifier : ℕ → Bytes → Gen
unfolding undeclared
rexpr_identifier line x c = elim (find_alloc (c.var_allocs) x) [
  | none ↦ undeclared line c
  | some k ↦ (put (code_of OpCode.borrow + 0x8000) line >> put k line) c
]

module _ (float_equal : Float → Float → Bool) where
  unfoldable pub thread_leaf : A → Pos → Payload → Gen
  unfolding thread_identifier
  thread_leaf A.bool p (bool_value true) = put (code_of OpCode.push_true) p.0
  thread_leaf A.bool p (bool_value false) = put (code_of OpCode.push_false) p.0
  thread_leaf A.int p (int_value i) =
      if is_short i
      then put (code_of OpCode.push + 0x9000) p.0 >> put (int_word i) p.0
      else push_constant float_equal (TypedValue.int i) p.0
  thread_leaf A.float p (float_value f) = push_constant float_equal (TypedValue.float f) p.0
  thread_leaf A.string p (string_value s) = push_constant float_equal (TypedValue.string s) p.0
  thread_leaf A.identifier p (string_value x) = thread_identifier p.0 x
  thread_leaf A.null p _ = put (code_of OpCode.push) p.0
  thread_leaf A.nop p _ = put (code_of OpCode.push) p.0
  thread_leaf _ p _ = stop

-- A list in parentheses or brackets, and the operation that takes its items; `flags` are those of
-- the operation if there are any.
unfoldable pub thread_list : OpCode → ℕ → ℕ → AstNode → Child → Gen
thread_list op flags line n child =
    if is_nop n
    then put (code_of op) line
    else child Part.items
      >> put (code_of op + flags) line
      >> put (word (count (expr_list_items n))) line

unfoldable pub thread_table : ℕ → AstNode → Child → Gen
thread_table line n child =
    if is_nop n
    then put (code_of OpCode.create_table) line
    else child Part.entries
      >> put (code_of OpCode.create_table + 0x9000) line
      >> put (word (count (expr_list_items n))) line

unfoldable pub thread_print : ℕ → AstNode → Child → Gen
thread_print line n child =
    let num = length (expr_list_items n) in
    if ltb 1 num
    then child Part.every >> put (code_of OpCode.print + 0x9000) line >> put (word num) line
    else if ltb 0 num
    then child Part.every >> put (code_of OpCode.print) line
    else skip

-- The name of an identifier, which is read of the union whatever the node is.
abbrev pub name_of : AstNode → Option Bytes
name_of (leaf _ _ _ (string_value x)) = some x
name_of _ = none

-- `var_allocs->direct()`, as a chain of one map.
abbrev pub direct : VarAllocMap → VarAllocMap
direct [] = []
direct (m ∷ _) = m ∷ []

-- `var x = e`: a second declaration in the same scope writes to the place of the first.
unfoldable pub declare : ℕ → Bytes → Gen
declare line x c =
    let place = word (with_flag (c.locals) stack_pos_local) in
    let write = put (code_of OpCode.write + 0x8000) line in
    elim (find_alloc (direct (c.var_allocs)) x) [
      | some k ↦ (write >> put k line) c
      | none ↦
          (write >> put place line)
            (record c { locals = suc (c.locals); var_allocs = set_direct x place (c.var_allocs) })
    ]

unfoldable pub thread_var : ℕ → AstNode → Child → Gen
unfolding declare
thread_var line (two _ _ _ x _) child =
    child Part.second >> elim (name_of x) [ none ↦ stop | some s ↦ declare line s ]
thread_var line _ child = stop

unfoldable pub thread_assert : ℕ → AstNode → Child → Gen
thread_assert line (two A.expr_list _ _ _ _) child =
    child Part.second >> child Part.first >> put (code_of OpCode.assert + 0x0400) line
thread_assert line _ child = child Part.whole >> put (code_of OpCode.assert) line

-- The child of a block is read as `children.first`, which stands in the same place of the union.
unfoldable pub thread_one : A → Pos → AstNode → Child → Gen
unfolding thread_list thread_table thread_print thread_var thread_assert
thread_one A.move p n child = child Part.rexpr >> put (code_of OpCode.move + 0x0800) p.0
thread_one A.neg p n child = child Part.whole >> put (code_of OpCode.neg) p.0
thread_one A.not_ p n child = child Part.whole >> put (code_of OpCode.not_) p.0
thread_one A.code_block p n child = enter_scope >> child Part.whole >> leave_scope
thread_one A.array p n child = thread_list OpCode.create_array 0x9000 p.0 n child
thread_one A.table p n child = thread_table p.0 n child
thread_one A.var p n child = thread_var p.0 n child
thread_one A.return p n child = child Part.whole >> put (code_of OpCode.return) p.0
thread_one A.recurse p n child =
    put (code_of OpCode.push) p.0 >> thread_list OpCode.recurse 0x8000 p.0 n child
thread_one A.print p n child = thread_print p.0 n child
thread_one A.assert p n child = thread_assert p.0 n child
thread_one _ p n child = stop
