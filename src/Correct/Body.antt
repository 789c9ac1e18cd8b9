-- ===== src/Correct/Body.antt =====
-- A function whose body is an expression: what `generate_` of libjarl/code_generator.cpp makes of it,
-- and how `VM::execute` runs its words in a frame.
use mathlib.Core.Path.{subst}
use jarl.Common.{
  ℕ, ◌+◌, ◌≤◌, ◌<◌, ◌≡◌, refl, arith, Bool, List, [], ◌∷◌, ◌++◌, Option, none, some, if◌then◌else◌,
  length, get_elem?, sym, ◌∙◌, ltb, ltb-false,
}
use jarl.Common.Outcome
use jarl.Common.Outcome.{Outcome, ok}
use jarl.Lexeme.{Float}
use jarl.Errors.{Error}
use jarl.Ast.{AstNode}
use jarl.Value.Data.{TypedValue, FloatOps}
use jarl.Value.Convert.{Scanner}
use jarl.Function.Lines.{Positions, generate_start}
use jarl.Function.Code.{Function}
use jarl.CodeGenerator.Context.{VarAllocMap, Context, put}
use jarl.CodeGenerator.Relocate.{Layout, relocate}
use jarl.CodeGenerator.Thread.{Part}
use jarl.CodeGenerator.Generate.{thread, generate_, to_function, start}
use jarl.Vm.State.{StackFrame, State, running, settle}
use jarl.Correct.Expr.{Expr, Env, Represents, Emits, eval, size}
use jarl.Correct.Within.{Within}
use jarl.Correct.Leads.{At, At-append, At-all}
use jarl.Correct.Outputs.{grow}
use jarl.Correct.Nodes.{Outputs-elim, put-grow}
use jarl.Correct.Threads.{Place, Threads, threads, AllNames, Known}
use jarl.Correct.Moves.{Emits-Becomes}
use jarl.Correct.Run.{Emits-Pushes}
use jarl.Correct.Turns.{at_}
use jarl.Correct.Emitted.{Emits-length}
use jarl.Correct.Frames.{IsFrame, Place-Holds}
use jarl.Correct.Generates.{thread-Threads}

-- The code of a function whose body is an expression: the words of the body and a `Return`.
pub data Body (float_equal : Float → Float → Bool) (e : Expr) (c : Context)
    : Outcome (Context × Option Function) → Type 0 where
  body :
      (ws : List ℕ) (more : List TypedValue) (ps : Positions)
      → Emits (Place more (c.var_allocs)) e 0 ws
      → length more ≤ size e
      → Body float_equal e c (
          ok
            (grow c (ws ++ (0 ∷ [])) more ps, some (to_function (grow c (ws ++ (0 ∷ [])) more ps))))

abbrev finish : ℕ → List Error → Context → Outcome (Context × Option Function)
finish line errors c =
    if ltb (length errors) (length (c.errors))
    then ok (c, none)
    else Outcome.bind (put 0 line c) (λ c'. ok (c', some (to_function c')))

module _ (float_equal : Float → Float → Bool) (line : ℕ) (errors : List Error)
    (functions : List Function) (allocs : VarAllocMap) (outer : Option VarAllocMap) where
  abbrev begin : Context
  begin = start line errors functions allocs outer

  finish-Body :
      {e : Expr} {r : Outcome Context}
      → Threads e begin r
      → Body float_equal e begin (Outcome.bind r (finish line errors))
  unfolding generate_start
  finish-Body {e} (threads ws more d h out) =
      Outputs-elim (Body float_equal e begin) (finish line errors) out (λ ps.
        rw (ltb-false (length errors) (length errors) (omega arith)) (
          Outputs-elim (Body float_equal e begin) (λ c'. ok (c', some (to_function c')))
            (put-grow 0 line begin ws more ps) (λ ps'. body ws more ps' d h)))

  pub generate_-Body :
      {e : Expr} {n : AstNode}
      → Represents e n
      → AllNames (Known allocs) e
      → size e < 0x2000
      → Body float_equal e begin
          (generate_ line errors functions allocs outer (thread float_equal n Part.whole))
  unfolding generate_ generate_start
  generate_-Body r k b =
      finish-Body (thread-Threads float_equal r begin k (omega arith) (omega arith))

module _ (ops : FloatOps) (scanner : Scanner) (functions : List Function) (st : State)
    (fr : StackFrame) (f : Function) (found : get_elem? functions (fr.func) ≡ some f) where
  -- The words of the body, corrected, are run in a frame that holds the constants and the names: in
  -- no more turns than there are words, and with no more values above the frame at a time.
  pub run_body :
      (l : Layout) (cs : List TypedValue) (ms : VarAllocMap) (env : Env) (s : List TypedValue)
      (e : Expr) (ws : List ℕ)
      → IsFrame l cs ms env (fr.bp) s
      → l.const_pos < 0x8000
      → size e < 0x2000
      → Emits (Place cs ms) e 0 ws
      → f.code ≡ relocate l 0 (ws ++ (0 ∷ []))
      → Within ops scanner functions
          (length s + size e)
          (size e)
          (at_ st fr 0 s)
          (settle (eval ops scanner env e) (λ v. running (at_ st fr (size e) (v ∷ s))))
        × (get_elem? (f.code) (size e) ≡ some 0)
  unfolding relocate
  run_body l cs ms env s e ws h b b' d q =
      let moved =
        Emits-Becomes l (Place-Holds ops scanner functions st fr f found l cs ms env s h b) d
          (omega arith) in
      let code : f.code ≡ moved.0 ++ (0 ∷ []) = q ∙ moved.1.1 (0 ∷ []) in
      let words = At-append (f.code) 0 (size e) (moved.0) (0 ∷ []) (Emits-length (moved.1.0)) (
        subst (λ c. At c 0 (moved.0 ++ (0 ∷ []))) (sym code)
          (At-all [] (moved.0 ++ (0 ∷ [])) 0 refl)) in
      (
        Emits-Pushes ops scanner functions st fr f found env s moved.1.0 words.0 [] (size e)
            (size e) (length s + size e) (omega arith) (omega arith) (omega arith),
        subst (λ i. get_elem? (f.code) i ≡ some 0) (omega arith) words.1.0,
      )
