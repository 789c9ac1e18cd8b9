-- ===== src/Correct/Generates.antt =====
-- `threadAST` and `generate_` of libjarl/code_generator.cpp on the tree of an expression.
use jarl.Common.{ℕ, ◌+◌, ◌<◌, ◌≡◌, refl, arith, Bool, true, false, [], ◌∷◌, length, length-append}
use jarl.Common.Outcome
use jarl.Common.Outcome.{Outcome, ok}
use jarl.Lexeme.{Float, Pos}
use jarl.Ast.{AstNode, two, one, Flags}
use jarl.Value.Compare.{CmpMode}
use jarl.CodeGenerator.Context.{Context, Gen, ◌>>◌, put}
use jarl.CodeGenerator.Thread.{Part, thread_leaf, thread_one}
use jarl.CodeGenerator.Branch.{
  thread_two, thread_short, thread_if, thread_binary, binary_op, pop_unless, fill,
}
use jarl.CodeGenerator.Generate.{thread, part_of_one, part_of_leaf, part_of_two, whole_of_two}
use jarl.Correct.Expr.{
  Expr, Unary, Binary, Represents, Emits, size, unary_type, binary_type, logic_type, truth_word,
  unary_word, binary_word, logic_word,
}
use jarl.Correct.Outputs.{grow, put-Outputs}
use jarl.Correct.Threads.{
  Threads, threads, AllNames, Known, number-Threads, text-Threads, identifier-Threads,
}
use jarl.Correct.Nodes.{unary-Threads, binary-Threads}
use jarl.Correct.Jumps.{logic-Threads}
use jarl.Correct.Choice.{choose-Threads}

module _ (float_equal : Float → Float → Bool) where
  abbrev thread_whole : AstNode → Gen
  thread_whole n c = thread float_equal n Part.whole c

  thread-binary :
      (o : Binary) (f : Flags) (p : Pos) (m n : AstNode) (c : Context)
      → thread_whole (two (binary_type o) f p m n) c
        ≡ Outcome.bind (thread_whole m c) (thread_whole n >> put (binary_word o) p.0)
  unfolding thread part_of_two whole_of_two thread_two binary_op thread_binary
  thread-binary Binary.add f p m n c = refl
  thread-binary Binary.sub f p m n c = refl
  thread-binary Binary.mul f p m n c = refl
  thread-binary Binary.div f p m n c = refl
  thread-binary Binary.mod_ f p m n c = refl
  thread-binary Binary.order f p m n c = refl
  thread-binary (Binary.compare CmpMode.equal) f p m n c = refl
  thread-binary (Binary.compare CmpMode.not_equal) f p m n c = refl
  thread-binary (Binary.compare CmpMode.greater) f p m n c = refl
  thread-binary (Binary.compare CmpMode.less) f p m n c = refl
  thread-binary (Binary.compare CmpMode.greater_equal) f p m n c = refl
  thread-binary (Binary.compare CmpMode.less_equal) f p m n c = refl

  thread-logic :
      (stop : Bool) (f : Flags) (p : Pos) (m n : AstNode) (c : Context)
      → thread_whole (two (logic_type stop) f p m n) c
        ≡ Outcome.bind (thread_whole m c) (put (logic_word stop) p.0 >> fill 0 p.0 (thread_whole n))
  unfolding thread part_of_two whole_of_two thread_two thread_short
  thread-logic false f p m n c = refl
  thread-logic true f p m n c = refl

  thread-unary :
      (u : Unary) (f : Flags) (p : Pos) (n : AstNode) (c : Context)
      → thread_whole (one (unary_type u) f p n) c
        ≡ Outcome.bind (thread_whole n c) (put (unary_word u) p.0)
  unfolding thread part_of_one thread_one
  thread-unary Unary.neg f p n c = refl
  thread-unary Unary.not_ f p n c = refl

  truth-Threads :
      (b : Bool) (line : ℕ) (c : Context) → Threads (Expr.truth b) c (put (truth_word b) line c)
  unfolding size
  truth-Threads b line c =
      threads (truth_word b ∷ []) [] (Emits.truth b) (omega arith)
        (put-Outputs (truth_word b) line c)

  -- A tree for an expression whose names are known adds the words of the expression.
  pub thread-Threads :
      {e : Expr} {n : AstNode}
      → Represents e n
      → (c : Context) → AllNames (Known (c.var_allocs)) e
      → length (c.out.code) + size e < 0x2000
      → length (c.constants) + size e < 0x2000
      → Threads e c (thread_whole n c)
  unfolding thread part_of_leaf part_of_one part_of_two whole_of_two thread_leaf thread_two
      thread_if pop_unless size
  thread-Threads (Represents.null {p = p}) c k b b' =
      threads (2 ∷ []) [] Emits.null (omega arith) (put-Outputs 2 p.0 c)
  thread-Threads (Represents.truth {p = p} true) c k b b' = truth-Threads true p.0 c
  thread-Threads (Represents.truth {p = p} false) c k b b' = truth-Threads false p.0 c
  thread-Threads (Represents.number {p = p} n) c k b b' = number-Threads float_equal n p.0 c b'
  thread-Threads (Represents.text {p = p} s) c k b b' = text-Threads float_equal s p.0 c b'
  thread-Threads (Represents.name {p = p} x) c k b b' = identifier-Threads float_equal x p.0 c k
  thread-Threads (Represents.unary {f = f} {p = p} {e = e} {n = n} u r) c k b b' =
      rw (thread-unary u f p n c)
        (unary-Threads u e c p.0 (thread-Threads r c k (omega arith) (omega arith)))
  thread-Threads (Represents.binary {f = f} {p = p} {a = a} {b = e} {m = m} {n = n} o r r') c k b
        b' =
      rw (thread-binary o f p m n c) (
        binary-Threads o a e c p.0 (thread_whole n)
          (thread-Threads r c k.0 (omega arith) (omega arith))
          (λ xs ms ps s t.
            thread-Threads r' (grow c xs ms ps) k.1 (omega (arith, length-append (c.out.code) xs))
              (omega (arith, length-append (c.constants) ms))))
  thread-Threads (Represents.logic {f = f} {p = p} {a = a} {b = e} {m = m} {n = n} stop r r') c k b
        b' =
      rw (thread-logic stop f p m n c) (
        logic-Threads stop a e c p.0 (thread_whole n) b
          (thread-Threads r c k.0 (omega arith) (omega arith))
          (λ xs ms ps s t.
            thread-Threads r' (grow c xs ms ps) k.1 (omega (arith, length-append (c.out.code) xs))
              (omega (arith, length-append (c.constants) ms))))
  thread-Threads (Represents.choose {p = p} {c = e} {a = a} {b = e'} {m = m} {n = n} r r' r'') c k b
        b' =
      choose-Threads e a e' c p.0 (thread_whole m) (thread_whole n) b
        (thread-Threads r c k.0 (omega arith) (omega arith))
        (λ xs ms ps s t.
          thread-Threads r' (grow c xs ms ps) k.1.0 (omega (arith, length-append (c.out.code) xs))
            (omega (arith, length-append (c.constants) ms)))
        (λ xs ms ps s t.
          thread-Threads r'' (grow c xs ms ps) k.1.1 (omega (arith, length-append (c.out.code) xs))
            (omega (arith, length-append (c.constants) ms)))
