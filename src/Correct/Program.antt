-- ===== src/Correct/Program.antt =====
-- A program that is an expression: `generate` of libjarl/code_generator.cpp makes a function of it,
-- and `VM::execute` of libjarl/vm.cpp on that function ends with the value of the expression.
use jarl.Common.{
  ℕ, suc, ◌+◌, ◌*◌, ◌-◌, ◌≤◌, ◌<◌, ◌≡◌, refl, arith, Bool, List, [], ◌∷◌, ◌++◌, Option, none, some,
  length, get_elem?, drop, sym, ◌∙◌, ltb-true,
}
use jarl.Common.Outcome.{Outcome, ok}
use jarl.Lexeme.{Float, Bytes}
use jarl.Errors.{Error}
use jarl.Ast.{AstNode, pos_of}
use jarl.Value.Data.{TypedValue, FloatOps}
use jarl.Value.Convert.{Scanner}
use jarl.Function.Lines.{Positions, generate_start}
use jarl.Function.Code.{Function}
use jarl.CodeGenerator.Context.{Context, find_alloc}
use jarl.Containers.DelegateMap
use jarl.Containers.VectorMap
use jarl.CodeGenerator.Relocate.{Layout}
use jarl.CodeGenerator.Generate.{generate, to_function, layout_of, size_of, start}
use jarl.Vm.State.{StackFrame, State, running, finished, settle}
use jarl.OpCodes.{OpCode, decode}
use jarl.Vm.Step.{execute, new_machine, operation}
use jarl.Vm.Calls.{push_all, push_function, pop_function, leave_value, enter}
use jarl.Function.Apply.{empty_slots}
use jarl.Correct.Expr.{Expr, Represents, Emits, eval, size}
use jarl.Correct.Leads.{Leads, get_elem?_middle}
use jarl.Correct.Within.{Within, once, more_values, Within-settle, Within-Leads}
use jarl.Correct.Emitted.{size-pos}
use jarl.Correct.Outputs.{grow}
use jarl.Correct.Threads.{Place, AllNames}
use jarl.Correct.Turns.{at_, turn}
use jarl.Correct.Frames.{IsFrame, length-push_all, slot-push_all}
use jarl.Correct.Body.{Body, body, generate_-Body, run_body}

abbrev pub NoNames : Expr → Type 0
NoNames = AllNames (λ _. ⊥)

AllNames-map :
    {P Q : Bytes → Type 0} → ((x : Bytes) → P x → Q x) → (e : Expr) → AllNames P e → AllNames Q e
AllNames-map m Expr.null h = tt
AllNames-map m (Expr.truth b) h = tt
AllNames-map m (Expr.number n) h = tt
AllNames-map m (Expr.text s) h = tt
AllNames-map m (Expr.name x) h = m x h
AllNames-map m (Expr.unary u e) h = AllNames-map m e h
AllNames-map m (Expr.binary o a b) h = (AllNames-map m a h.0, AllNames-map m b h.1)
AllNames-map m (Expr.logic stop a b) h = (AllNames-map m a h.0, AllNames-map m b h.1)
AllNames-map m (Expr.choose c a b) h =
    (AllNames-map m c h.0, (AllNames-map m a h.1.0, AllNames-map m b h.1.1))

-- `generate` gives a function, with no new error, which a new machine runs in no more turns than it
-- has words, on a stack that holds at most its constants and as many values as the body has words.
pub data Runs (ops : FloatOps) (scanner : Scanner) (e : Expr) (errors : List Error)
    : Outcome (Context × Option Function) → Type 0 where
  runs :
      (c : Context) (f : Function)
      → c.errors ≡ errors
      → ((before after : List Function)
          → (u : State) × ((execute (before ++ (f ∷ after)) (length before) new_machine ≡ running u)
              × Within ops scanner (before ++ (f ∷ after)) (2 * size e) (size e + 1) u (
                  settle
                    (eval ops scanner (λ _. none) e)
                    (λ v. finished (record new_machine { stack = v ∷ [] })))))
      → Runs ops scanner e errors (ok (c, some f))

-- `generate` gives a function, with no new error, on which a new machine ends with the value of `e`
-- alone on its stack, or in the failure in which the evaluation of `e` ends.
pub data Computes (ops : FloatOps) (scanner : Scanner) (e : Expr) (errors : List Error)
    : Outcome (Context × Option Function) → Type 0 where
  computes :
      (c : Context) (f : Function)
      → c.errors ≡ errors
      → ((before after : List Function)
          → (u : State) × ((execute (before ++ (f ∷ after)) (length before) new_machine ≡ running u)
              × Leads ops scanner (before ++ (f ∷ after)) u (
                  settle
                    (eval ops scanner (λ _. none) e)
                    (λ v. finished (record new_machine { stack = v ∷ [] })))))
      → Computes ops scanner e errors (ok (c, some f))

no_alloc : (x : Bytes) → find_alloc ([] ∷ []) x ≡ none
unfolding find_alloc DelegateMap.find VectorMap.find
no_alloc x = refl

drop_all : (s : List TypedValue) → drop (length s) s ≡ []
drop_all [] = refl
drop_all (v ∷ s) = drop_all s

-- The frame of a program holds its constants, from the bottom of the stack on.
program-IsFrame :
    (l : Layout) (more : List TypedValue)
    → l.const_pos ≡ 0
    → IsFrame l more ([] ∷ []) (λ _. none) 0 (push_all more [])
program-IsFrame l more z = record {
  constants = λ k v h. slot-push_all more [] _ k v (omega arith) h;
  variables = λ x w h. let e = sym (no_alloc x) ∙ h in absurd cc;
}

-- `Return` without a caller.
end_of_program :
    (ops : FloatOps) (scanner : Scanner) (functions : List Function) (v : TypedValue)
    (s : List TypedValue) (fr : StackFrame) (f : Function)
    → operation ops scanner functions OpCode.return
        (record new_machine { stack = v ∷ s; frame = some fr })
        fr
        f
        0
      ≡ finished (record new_machine { stack = v ∷ [] })
unfolding operation pop_function leave_value
end_of_program ops scanner functions v [] fr f = refl
end_of_program ops scanner functions v (w ∷ s) fr f =
    rw (ltb-true 1 (suc (suc (length s))) (omega arith), sub_zero, drop_all (w ∷ s)) refl
  where
    sub_zero : suc (length s) - 0 ≡ suc (length s)
    sub_zero = omega arith

module _ (ops : FloatOps) (scanner : Scanner) where
  run_program :
      (line : ℕ) (errors : List Error) (e : Expr) (ws : List ℕ) (more : List TypedValue)
      (ps : Positions) (functions : List Function) (a : ℕ)
      → size e < 0x2000
      → length more ≤ size e
      → Emits (Place more ([] ∷ [])) e 0 ws
      → get_elem? functions a
        ≡ some (to_function (grow (start line errors [] ([] ∷ []) none) (ws ++ (0 ∷ [])) more ps))
      → (u : State) × ((execute functions a new_machine ≡ running u)
          × Within ops scanner functions (2 * size e) (size e + 1) u (
              settle
                (eval ops scanner (λ _. none) e)
                (λ v. finished (record new_machine { stack = v ∷ [] }))))
  unfolding to_function size_of execute push_function enter push_all empty_slots generate_start
  run_program line errors e ws more ps functions a b m d h =
      let c = grow (start line errors [] ([] ∷ []) none) (ws ++ (0 ∷ [])) more ps in
      let f = to_function c in
      let fr : StackFrame = record { func = a; ip = 0; bp = 0 } in
      let s = push_all more [] in
      let ran =
        run_body ops scanner functions new_machine fr f h (layout_of c) more ([] ∷ []) (λ _. none) s
          e ws (program-IsFrame (layout_of c) more refl) (omega arith) b d refl in
      (
        at_ new_machine fr 0 s,
        (
          rw h refl,
          Within-settle ops scanner functions 1 (size e + 1) (eval ops scanner (λ _. none) e)
              (λ v. at_ new_machine fr (size e) (v ∷ s))
              (λ v. finished (record new_machine { stack = v ∷ [] })) (omega arith)
              (more_values ops scanner functions (omega (arith, length-push_all more [])) ran.0)
              (λ v.
                once ops scanner functions 1 (omega arith)
                  (omega (arith, length-push_all more [], size-pos e))
                  (turn ops scanner functions new_machine fr f h (size e) 0 (v ∷ s) OpCode.return
                      ran.1 (unfold decode in refl)
                    ∙ end_of_program ops scanner functions v s (record fr { ip = size e }) f)),
        ),
      )

  pub generate-Runs :
      (float_equal : Float → Float → Bool) {e : Expr} {n : AstNode} (errors : List Error)
      → Represents e n
      → NoNames e
      → size e < 0x2000
      → Runs ops scanner e errors (generate float_equal n errors)
  unfolding generate
  generate-Runs float_equal {e} {n} errors r k b = from_body (
      generate_-Body float_equal ((pos_of n).0) errors [] ([] ∷ []) none r
        (AllNames-map (λ x h. absurd h) e k) b)
    where
      from_body :
          {o : Outcome (Context × Option Function)}
          → Body float_equal e (start ((pos_of n).0) errors [] ([] ∷ []) none) o
          → Runs ops scanner e errors o
      from_body (body ws more ps d h) = runs _ _ refl (λ before after.
          run_program ((pos_of n).0) errors e ws more ps _ (length before) b h d
            (get_elem?_middle before after _ (length before) refl))

  Runs-Computes :
      {e : Expr} {errors : List Error} {o : Outcome (Context × Option Function)}
      → Runs ops scanner e errors o
      → Computes ops scanner e errors o
  Runs-Computes (runs c f q h) = computes c f q (λ before after.
      let u = h before after in
      (u.0, (u.1.0, Within-Leads ops scanner (before ++ (f ∷ after)) u.1.1)))

  -- Of a tree that stands for an expression without names and of less than 8192 words, `generate`
  -- makes a function without adding an error; a new machine that executes it comes, in finitely many
  -- turns, to the end of the program with the value of the expression alone on the stack, or to the
  -- failure in which the evaluation of the expression ends.
  pub generate-Computes :
      (float_equal : Float → Float → Bool) {e : Expr} {n : AstNode} (errors : List Error)
      → Represents e n
      → NoNames e
      → size e < 0x2000
      → Computes ops scanner e errors (generate float_equal n errors)
  generate-Computes float_equal errors r k b =
      Runs-Computes (generate-Runs float_equal errors r k b)
