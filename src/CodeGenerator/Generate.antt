-- ===== src/CodeGenerator/Generate.antt =====
-- libjarl/code_generator.cpp: `generate_`, function literals, `threadAST` on any node, `generate`.
use jarl.Common.{
  ℕ, zero, suc, ◌+◌, Bool, List, [], ◌∷◌, ◌++◌, Option, none, some, ltb, if◌then◌else◌, length,
  get_elem?,
}
use jarl.Common.Outcome
use jarl.Common.Outcome.{Outcome, ok, fault}
use jarl.Lexeme.{Float, Bytes, Pos}
use jarl.Errors.{Error}
use jarl.Ast.{AstNode, leaf, one, two, AstNodeType as A, Flags, pos_of, expr_list_items}
use jarl.Value.Data.{TypedValue}
use jarl.Function.Lines.{generate_start}
use jarl.Function.Code.{Function}
use jarl.Containers.VectorMap.{Entry}
use jarl.Containers.DelegateMap
use jarl.Lexeme.{Payload, string_value}
use jarl.OpCodes.{OpCode, code_of, word}
use jarl.CodeGenerator.Names.{names}
use jarl.CodeGenerator.Context.{
  VarAllocMap, Context, Gen, ◌>>◌, skip, stop, put, set_entry, push_constant,
}
use jarl.CodeGenerator.Relocate.{Layout, relocate}
use jarl.CodeGenerator.Thread.{Part, Child, name_of, thread_leaf, thread_one, rexpr_identifier}
use jarl.CodeGenerator.Branch.{thread_two}
use jarl.Errors.{insertion_to_variable}
use jarl.CodeGenerator.Context.{report}

-- `DelegateMap::size`
unfoldable pub size_of : VarAllocMap → ℕ
size_of [] = 0
size_of (m ∷ ms) = length m + size_of ms

abbrev pub layout_of : Context → Layout
layout_of c = record {
  capture_pos = c.arguments;
  const_pos = c.arguments + c.captures;
  local_pos = c.arguments + c.captures + length (c.constants);
}

unfoldable pub to_function : Context → Function
to_function c = record {
  code = relocate (layout_of c) 0 (c.out.code);
  values = c.constants;
  code_positions = c.out.code_positions;
  arguments = c.arguments;
  captures = c.captures;
  locals = c.locals;
}

abbrev pub start : ℕ → List Error → List Function → VarAllocMap → Option VarAllocMap → Context
start line errors functions allocs outer = record {
  out = generate_start line;
  var_allocs = allocs;
  context_var_allocs = outer;
  constants = [];
  arguments = size_of allocs;
  captures = 0;
  locals = 0;
  errors = errors;
  functions = functions;
}

-- The context in which the function ends, and the function, if there was no error.
unfoldable pub generate_ :
    ℕ
    → List Error
    → List Function
    → VarAllocMap
    → Option VarAllocMap
    → Gen
    → Outcome (Context × Option Function)
unfolding to_function size_of
generate_ line errors functions allocs outer thread_ast =
    Outcome.bind (thread_ast (start line errors functions allocs outer)) (λ c.
      if ltb (length errors) (length (c.errors))
      then ok (c, none)
      else Outcome.bind (put (code_of OpCode.return) line c) (λ c'. ok (c', some (to_function c'))))

-- `(*var_alloc)[it->string_value] = args++`
unfoldable pub bind_arguments :
    ℕ → List AstNode → List (Entry Bytes ℕ) → Outcome (List (Entry Bytes ℕ))
bind_arguments args [] m = ok m
bind_arguments args (n ∷ ns) m = elim (name_of n) [
  | none ↦ fault
  | some x ↦ bind_arguments (suc args) ns (set_entry x (word args) m)
]

abbrev pub base_of : VarAllocMap → List (Entry Bytes ℕ)
base_of [] = []
base_of (m ∷ []) = m
base_of (m ∷ d ∷ ms) = base_of (d ∷ ms)

-- `(*var_allocs)[x]`, which can add an entry with the place 0.
unfoldable pub subscript_alloc : Bytes → VarAllocMap → Outcome (VarAllocMap × ℕ)
subscript_alloc x [] = fault
subscript_alloc x (m ∷ ms) =
    let r = DelegateMap.subscript names 0 x m ms in
    elim (get_elem? (r.0) (r.1.0)) [
      | none ↦ fault
      | some d ↦ elim (get_elem? d (r.1.1)) [ none ↦ fault | some e ↦ ok (r.0, e.second) ]
    ]

-- The pushes of the captured variables `i`, ..., of which `n` are left.
unfoldable pub push_captures : ℕ → List (Entry Bytes ℕ) → ℕ → ℕ → Gen
unfolding subscript_alloc
push_captures line base i zero = skip
push_captures line base i (suc n) =
    (λ c. elim (get_elem? base i) [
      | none ↦ fault
      | some e ↦ Outcome.bind (subscript_alloc (e.first) (c.var_allocs)) (λ r.
          (put (code_of OpCode.push + 0x8000) line >> put (r.1) line)
            (record c { var_allocs = r.0 }))
    ])
    >> push_captures line base (suc i) n

module _ (float_equal : Float → Float → Bool) where
  -- What follows the function: its constant, and its closure if it captures. Its address is new.
  unfoldable pub push_function : ℕ → ℕ → List (Entry Bytes ℕ) → Function → Gen
  unfolding push_captures
  push_function line args base f c =
      (push_constant float_equal (TypedValue.func (length (c.functions))) line
          >> (if ltb 0 (f.captures)
              then push_captures line base args (f.captures)
                >> put (code_of OpCode.create_closure + 0x9000) line
                >> put (word (f.captures)) line
              else skip))
        (record c { functions = c.functions ++ (f ∷ []) })

  unfoldable pub thread_function : ℕ → AstNode → ℕ → Gen → Gen
  unfolding bind_arguments generate_ push_function
  thread_function line params body_line thread_ast c =
      Outcome.bind (bind_arguments 0 (expr_list_items params) []) (λ m.
        Outcome.bind
          (generate_ body_line (c.errors) (c.functions) (m ∷ []) (some (c.var_allocs)) thread_ast)
          (λ r.
            let c' = record c { errors = r.0.errors; functions = r.0.functions } in
            elim (r.1) [
              | none ↦ put (code_of OpCode.nop) line c'
              | some f ↦
                  push_function line (length (expr_list_items params)) (base_of (r.0.var_allocs)) f
                    c'
            ]))

  -- The parts of a node with one child, given the code of the whole.
  unfoldable pub part_of_one : ℕ → Gen → Part → Gen
  part_of_one line m Part.whole = m
  part_of_one line m Part.items = m
  part_of_one line m Part.item = m
  part_of_one line m Part.every = m
  part_of_one line m Part.rexpr = skip
  part_of_one line m Part.ins_rexpr = put (code_of OpCode.nop) line
  part_of_one line m _ = stop

  -- A `Nop` in a list is passed over, but for `every`.
  unfoldable pub part_of_leaf : A → Pos → Payload → Part → Gen
  unfolding part_of_one thread_leaf rexpr_identifier
  part_of_leaf A.nop p v Part.items = skip
  part_of_leaf A.nop p v Part.item = skip
  part_of_leaf A.nop p v Part.entry = skip
  part_of_leaf A.nop p v Part.entries = skip
  part_of_leaf A.identifier p (string_value x) Part.rexpr = rexpr_identifier p.0 x
  part_of_leaf A.identifier p v Part.ins_rexpr =
      report p.0 insertion_to_variable >> put (code_of OpCode.nop) p.0
  part_of_leaf t p v q = part_of_one p.0 (thread_leaf float_equal t p v) q

  -- An item of a list, or the list, whose other items are the second child.
  unfoldable pub part_of_two : A → ℕ → Gen → Child → Child → Part → Gen
  part_of_two t line m a b Part.first = a Part.whole
  part_of_two t line m a b Part.second = b Part.whole
  part_of_two A.expr_list line m a b Part.items = a Part.item >> b Part.items
  part_of_two A.expr_list line m a b Part.every = a Part.whole >> b Part.every
  part_of_two A.expr_list line m a b Part.entries = a Part.entry >> b Part.entries
  part_of_two A.expr_list line m a b Part.iterated = b Part.second
  part_of_two A.key_value_pair line m a b Part.entry = a Part.whole >> b Part.whole
  part_of_two A.key_value_pair line m a b Part.entries = a Part.whole >> b Part.whole
  part_of_two A.index line m a b Part.rexpr =
      a Part.rexpr >> b Part.whole >> put (code_of OpCode.borrow + 0x0800) line
  part_of_two A.index line m a b Part.ins_rexpr =
      a Part.rexpr >> b Part.whole >> put (code_of OpCode.borrow + 0x0c00) line
  part_of_two t line m a b Part.iterated = b Part.whole
  part_of_two t line m a b Part.rexpr = skip
  part_of_two t line m a b Part.ins_rexpr = put (code_of OpCode.nop) line
  part_of_two t line m a b Part.entry = stop
  part_of_two t line m a b Part.entries = stop
  part_of_two t line m a b q = m

  unfoldable pub whole_of_two : A → Flags → Pos → AstNode → AstNode → Child → Child → Gen
  unfolding thread_function thread_two
  whole_of_two A.function f p m n a b = thread_function p.0 m ((pos_of n).0) (b Part.whole)
  whole_of_two t f p m n a b = thread_two t f p m n a b

  -- The three functions `thread...` on a node.
  unfoldable pub thread : AstNode → Part → Gen
  unfolding part_of_leaf part_of_one part_of_two thread_one whole_of_two
  thread (leaf t f p v) q = part_of_leaf t p v q
  thread (one t f p c) q = part_of_one p.0 (thread_one t p c (λ r. thread c r)) q
  thread (two t f p a b) q =
      part_of_two t p.0 (whole_of_two t f p a b (λ r. thread a r) (λ r. thread b r))
        (λ r. thread a r) (λ r. thread b r) q

  -- The function of a program, if there was no error, with the errors and the functions in it.
  unfoldable pub generate : AstNode → List Error → Outcome (Context × Option Function)
  unfolding generate_ thread
  generate tree errors =
      generate_ ((pos_of tree).0) errors [] ([] ∷ []) none (thread tree Part.whole)
