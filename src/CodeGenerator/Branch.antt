-- ===== src/CodeGenerator/Branch.antt =====
-- libjarl/code_generator.cpp, `threadAST`: the nodes with two children, their jumps, which are put
-- with a 0 that is overwritten when the address is known, and loops.
use jarl.Common.{ℕ, suc, ◌+◌, Option, none, some}
use jarl.Common.Outcome.{ok}
use jarl.Lexeme.{Pos}
use jarl.Ast.{AstNode, two, AstNodeType as A, Flags}
use jarl.OpCodes.{OpCode, code_of, word, with_flag}
use jarl.CodeGenerator.Context.{
  Gen, ◌>>◌, skip, stop, stack_pos_local, put, patch, enter_scope, leave_scope, set_direct,
}
use jarl.CodeGenerator.Thread.{Part, Child, at_size, if_value, name_of, thread_list}

-- `code[jmp_addr] = (OpCodes::Type)code.size() + n`
abbrev pub land : ℕ → ℕ → Gen
land n jmp = at_size (λ end. patch jmp (word (end + n)))

-- The operand of a jump: a 0 in front of `m`, that is overwritten with the address `n` words after.
unfoldable pub fill : ℕ → ℕ → Gen → Gen
unfolding patch
fill n line m = at_size (λ jmp. put 0 line >> (m >> land n jmp))

unfoldable pub thread_short : OpCode → ℕ → Child → Child → Gen
unfolding fill
thread_short op line a b =
    a Part.whole >> (put (code_of op + 0x8000) line >> fill 0 line (b Part.whole))

-- `if(!node->isValue() && child->isValue())`; `isValue` of the child is not read otherwise.
unfoldable pub pop_unless : Flags → AstNode → ℕ → Gen
unfolding if_value
pop_unless Flags.unset n line = stop
pop_unless Flags.none n line = if_value n (put (code_of OpCode.pop) line)
pop_unless _ n line = skip

unfoldable pub thread_if : Flags → ℕ → AstNode → Child → Child → Gen
unfolding if_value pop_unless fill
thread_if f line (two A.else_ _ _ x y) a b =
    a Part.whole
    >> (put (code_of OpCode.jf + 0x8000) line
        >> fill 1 line
            (b Part.first >> (pop_unless f x line >> put (code_of OpCode.jmp + 0x8000) line))
        >> fill 0 line (b Part.second >> pop_unless f y line))
thread_if f line n a b =
    a Part.whole
    >> (put (code_of OpCode.jf + 0x8000) line
        >> fill 1 line (
            b Part.whole
            >> (if_value n (put (code_of OpCode.pop) line)
                >> put (code_of OpCode.jmp + 0x8000) line))
        >> fill 0 line (put (code_of OpCode.push) line))

-- A loop from its beginning: the test, or the step of the iterator, with a jump behind the loop, the
-- body, and the jump back.
unfoldable pub thread_loop : OpCode → ℕ → ℕ → AstNode → Child → Gen
unfolding if_value fill
thread_loop op line begin n b =
    put (code_of op + 0x8000) line
    >> fill 0 line (
        b Part.whole
        >> (if_value n (put (code_of OpCode.pop) line)
            >> (put (code_of OpCode.jmp + 0x8000) line >> put (word begin) line)))

unfoldable pub thread_while : ℕ → AstNode → Child → Child → Gen
unfolding thread_loop
thread_while line n a b = at_size (λ begin. a Part.whole >> thread_loop OpCode.jf line begin n b)

-- `var_allocs->direct()[identifier] = place`
unfoldable pub bind_name : AstNode → ℕ → Gen
bind_name n place = elim (name_of n) [
  | none ↦ stop
  | some x ↦ (λ c. ok (record c { var_allocs = set_direct x place (c.var_allocs) }))
]

-- The two variables of a loop: the second is that of the value.
unfoldable pub bind_loop : ℕ → ℕ → AstNode → Gen
unfolding bind_name
bind_loop i j (two A.expr_list _ _ k (two _ _ _ x _)) = bind_name k i >> bind_name x j
bind_loop i j (two A.expr_list _ _ k _) = stop
bind_loop i j (two _ _ _ x _) = bind_name x j
bind_loop i j _ = stop

unfoldable pub thread_for : ℕ → AstNode → AstNode → Child → Child → Gen
unfolding bind_loop thread_loop
thread_for line stepper n a b =
    enter_scope
    >> (λ c.
        let i = word (with_flag (c.locals) stack_pos_local) in
        let j = word (with_flag (suc (c.locals)) stack_pos_local) in
        ((λ c. ok (record c { locals = suc (suc (c.locals)) }))
            >> bind_loop i j stepper
            >> a Part.iterated
            >> put (code_of OpCode.begin_iter + 0xc000) line
            >> put i line
            >> put j line
            >> at_size (λ begin. thread_loop OpCode.next_or_jmp line begin n b))
          c)
    >> leave_scope

unfoldable pub binary_op : A → Option OpCode
binary_op A.apply = some OpCode.apply
binary_op A.add = some OpCode.add
binary_op A.sub = some OpCode.sub
binary_op A.mul = some OpCode.mul
binary_op A.div = some OpCode.div
binary_op A.mod_ = some OpCode.mod_
binary_op A.append = some OpCode.append
binary_op A.cmp = some OpCode.cmp
binary_op A.eq = some OpCode.eq
binary_op A.neq = some OpCode.neq
binary_op A.gt = some OpCode.gt
binary_op A.lt = some OpCode.lt
binary_op A.geq = some OpCode.geq
binary_op A.leq = some OpCode.leq
binary_op A.in_ = some OpCode.in_
binary_op _ = none

unfoldable pub thread_binary : Option OpCode → ℕ → Child → Child → Gen
thread_binary none line a b = stop
thread_binary (some op) line a b = a Part.whole >> (b Part.whole >> put (code_of op) line)

-- An assignment goes to a borrowed place.
unfoldable pub thread_assign : OpCode → ℕ → Child → Child → Gen
thread_assign op line a b = a Part.rexpr >> b Part.whole >> put (code_of op + 0x0800) line

unfoldable pub thread_seq : ℕ → AstNode → Child → Child → Gen
unfolding if_value
thread_seq line n a b = a Part.whole >> if_value n (put (code_of OpCode.pop) line) >> b Part.whole

unfoldable pub thread_index : ℕ → AstNode → Child → Child → Gen
thread_index line (two A.expr_list _ _ _ _) a b =
    a Part.whole >> b Part.first >> b Part.second >> put (code_of OpCode.slice) line
thread_index line _ a b = a Part.whole >> b Part.whole >> put (code_of OpCode.get) line

unfoldable pub thread_two : A → Flags → Pos → AstNode → AstNode → Child → Child → Gen
unfolding thread_short thread_if thread_while thread_for thread_binary binary_op thread_assign
    thread_seq thread_index thread_list
thread_two A.and_ f p m n a b = thread_short OpCode.jfsc p.0 a b
thread_two A.or_ f p m n a b = thread_short OpCode.jtsc p.0 a b
thread_two A.if_ f p m n a b = thread_if f p.0 n a b
thread_two A.assign f p m n a b = thread_assign OpCode.write p.0 a b
thread_two A.insert f p m n a b =
    a Part.ins_rexpr >> b Part.whole >> put (code_of OpCode.write + 0x0800) p.0
thread_two A.add_assign f p m n a b = thread_assign OpCode.add p.0 a b
thread_two A.sub_assign f p m n a b = thread_assign OpCode.sub p.0 a b
thread_two A.mul_assign f p m n a b = thread_assign OpCode.mul p.0 a b
thread_two A.div_assign f p m n a b = thread_assign OpCode.div p.0 a b
thread_two A.mod_assign f p m n a b = thread_assign OpCode.mod_ p.0 a b
thread_two A.append_assign f p m n a b = thread_assign OpCode.append p.0 a b
thread_two A.while f p m n a b = thread_while p.0 n a b
thread_two A.for f p m n a b = thread_for p.0 m n a b
thread_two A.seq f p m n a b = thread_seq p.0 m a b
thread_two A.index f p m n a b = thread_index p.0 n a b
thread_two A.call f p m n a b = a Part.whole >> thread_list OpCode.call 0x8000 p.0 n b
thread_two t f p m n a b = thread_binary (binary_op t) p.0 a b
