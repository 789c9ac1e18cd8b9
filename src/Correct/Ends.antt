-- ===== src/Correct/Ends.antt =====
-- The loop of `VM::execute` in libjarl/vm.cpp ends: how many turns the program of an expression
-- takes, and how high its stack grows.
use jarl.Common.{ℕ, ◌+◌, ◌*◌, ◌≤◌, ◌<◌, ◌≡◌, refl, arith, List, [], ◌∷◌, ◌++◌, none, some, length}
use jarl.Common.Outcome.{Outcome, ok}
use jarl.Lexeme.{Float}
use jarl.Errors.{Error}
use jarl.Ast.{AstNode}
use jarl.Value.Data.{TypedValue, Result, FloatOps}
use jarl.Value.Convert.{Scanner}
use jarl.Function.Code.{Function}
use jarl.CodeGenerator.Context.{Context}
use jarl.CodeGenerator.Generate.{generate}
use jarl.Vm.State.{Fate, finished, settle}
use jarl.Vm.Step.{run, execute, new_machine}
use jarl.Correct.Expr.{Expr, Represents, eval, size}
use jarl.Correct.Emitted.{size-pos}
use jarl.Correct.Within.{height, IsOver, Within-run, height-run}
use jarl.Correct.Program.{NoNames, Runs, runs, generate-Runs}
use mathlib.Core.Bool.{Bool}
use mathlib.Core.Option.{Option}

-- The end of a program with the value `v`.
abbrev pub ended_with : TypedValue → Fate
ended_with v = finished (record new_machine { stack = v ∷ [] })

settle-IsOver : (x : Result TypedValue) → IsOver (settle x ended_with)
settle-IsOver (Result.ok v) = tt
settle-IsOver (Result.error_jmp e) = tt
settle-IsOver Result.undefined = tt

height-settle : (x : Result TypedValue) → height (settle x ended_with) ≤ 1
height-settle (Result.ok v) = omega arith
height-settle (Result.error_jmp e) = omega arith
height-settle Result.undefined = omega arith

module _ (ops : FloatOps) (scanner : Scanner) where
  -- The program of an expression without names and of less than 8192 words is generated. A new
  -- machine that executes it, wherever it stands among the functions, is at its end when it has taken
  -- as many turns as the expression has words and one more: it has ended with the value of the
  -- expression, or in the failure in which the evaluation of the expression ends. And after any
  -- number of turns the stack holds at most twice as many values as the expression has words.
  pub generate-run :
      (float_equal : Float → Float → Bool) {e : Expr} {n : AstNode} (errors : List Error)
      (before after : List Function) (turns : ℕ)
      → Represents e n
      → NoNames e
      → size e < 0x2000
      → (c : Context) × ((f : Function) × ((generate float_equal n errors ≡ ok (c, some f))
            × ((run ops scanner
                    (before ++ (f ∷ after))
                    (size e + 1)
                    (execute (before ++ (f ∷ after)) (length before) new_machine)
                  ≡ settle (eval ops scanner (λ _. none) e) ended_with)
                × (height (
                      run ops scanner
                        (before ++ (f ∷ after))
                        turns
                        (execute (before ++ (f ∷ after)) (length before) new_machine))
                    ≤ 2 * size e))))
  generate-run float_equal {e} {n} errors before after turns r k b =
      ended (generate float_equal n errors) refl
        (generate-Runs ops scanner float_equal errors r k b)
    where
      ended :
          (o : Outcome (Context × Option Function))
          → generate float_equal n errors ≡ o
          → Runs ops scanner e errors o
          → (c : Context) × ((f : Function) × ((generate float_equal n errors ≡ ok (c, some f))
                × ((run ops scanner
                        (before ++ (f ∷ after))
                        (size e + 1)
                        (execute (before ++ (f ∷ after)) (length before) new_machine)
                      ≡ settle (eval ops scanner (λ _. none) e) ended_with)
                    × (height (
                          run ops scanner
                            (before ++ (f ∷ after))
                            turns
                            (execute (before ++ (f ∷ after)) (length before) new_machine))
                        ≤ 2 * size e))))
      ended o q (runs c f _ h) =
          let u = h before after in
          let over = settle-IsOver (eval ops scanner (λ _. none) e) in
          let low = height-settle (eval ops scanner (λ _. none) e) in
          (
            c,
            (
              f,
              (
                q,
                (
                  rw u.1.0 (Within-run ops scanner (before ++ (f ∷ after)) u.1.1 over),
                  rw u.1.0 (
                      height-run ops scanner (before ++ (f ∷ after)) turns u.1.1 over
                        (omega (arith, size-pos e, low))),
                ),
              ),
            ),
          )
