-- ===== src/Correct/Call.antt =====
-- A function whose body is an expression: `generate_` of libjarl/code_generator.cpp makes its code,
-- and a call of it in libjarl/vm.cpp gives the value of the body for the arguments.
use jarl.Common.{
  ℕ, zero, suc, ◌+◌, ◌-◌, ◌<◌, ◌≡◌, refl, arith, Bool, true, List, [], ◌∷◌, ◌++◌, Option, none,
  some, ◌==◌, length, get_elem?, ◌∙◌, leb,
}
use jarl.Common.Outcome.{Outcome, ok}
use jarl.Lexeme.{Float, Bytes}
use jarl.Errors.{Error}
use jarl.Ast.{AstNode}
use jarl.OpCodes.{OpCode, decode}
use jarl.Value.Data.{TypedValue, func, FloatOps}
use jarl.Value.Convert.{Scanner}
use jarl.Function.Lines.{Positions, generate_start}
use jarl.Function.Code.{Function}
use jarl.Function.Apply.{empty_slots}
use jarl.CodeGenerator.Context.{VarAllocMap, Context, find_alloc}
use jarl.CodeGenerator.Relocate.{Layout}
use jarl.CodeGenerator.Thread.{Part}
use jarl.CodeGenerator.Generate.{thread, generate_, to_function, layout_of, size_of, start}
use jarl.Vm.State.{StackFrame, State, running, settle}
use jarl.Vm.Step.{operation}
use jarl.Vm.Calls.{push_all, enter, push_function, call_value}
use jarl.Vm.CallLaws.{push_all-IsBelow, pop_function-below}
use jarl.Correct.Expr.{Expr, Env, Represents, Emits, eval, size}
use jarl.Correct.Leads.{Leads, get_elem?_middle}
use jarl.Correct.Within.{once, Within-settle, Within-Leads}
use jarl.Correct.Emitted.{size-pos}
use jarl.Correct.Outputs.{grow}
use jarl.Correct.Threads.{Place, AllNames, Known}
use jarl.Correct.Turns.{at_, turn}
use jarl.Correct.Frames.{IsFrame, length-push_all, slot-push_all, slot-push_all_below}
use jarl.Correct.Body.{Body, body, generate_-Body, run_body}

-- The value of a name is the argument at its place.
abbrev pub env_of : VarAllocMap → List TypedValue → Env
env_of ms args x = elim (find_alloc ms x) [ none ↦ none | some w ↦ get_elem? args w ]

get_elem?_below :
    (xs : List TypedValue) (i : ℕ) → i < length xs → (v : TypedValue) × (get_elem? xs i ≡ some v)
get_elem?_below [] i h = absurd (omega arith)
get_elem?_below (x ∷ xs) zero h = (x, refl)
get_elem?_below (x ∷ xs) (suc i) h = get_elem?_below xs i (omega arith)

-- The stack in a call: the arguments over the callee.
abbrev pub with_arguments :
    State → StackFrame → List TypedValue → TypedValue → List TypedValue → State
with_arguments st fr args callee rest = record st {
  stack = push_all args (callee ∷ rest);
  frame = some fr;
}

-- `generate_` gives a function, with no new error, a call of which comes to the value of `e`, in the
-- place of the callee and with the caller behind its call, or to the failure of its evaluation.
pub data Called (ops : FloatOps) (scanner : Scanner) (e : Expr) (ms : VarAllocMap)
    (args : List TypedValue) (errors : List Error)
    : Outcome (Context × Option Function) → Type 0 where
  called :
      (c : Context) (f : Function)
      → c.errors ≡ errors
      → ((before after : List Function) (st : State) (fr : StackFrame) (rest : List TypedValue)
          → (u : State) × ((call_value
                  (before ++ (f ∷ after))
                  (with_arguments st fr args (func (length before)) rest)
                  (func (length before))
                  (length args)
                ≡ running u)
              × Leads ops scanner (before ++ (f ∷ after)) u (
                  settle (eval ops scanner (env_of ms args) e) (λ v. running (record st {
                    stack = v ∷ rest;
                    frame = some (record fr { ip = suc (fr.ip) });
                  })))))
      → Called ops scanner e ms args errors (ok (c, some f))

call-IsFrame :
    (l : Layout) (more : List TypedValue) (ms : VarAllocMap) (args : List TypedValue)
    (callee : TypedValue) (rest : List TypedValue)
    → l.const_pos ≡ length args
    → length args < 0x2000
    → ((x : Bytes) (w : ℕ) → find_alloc ms x ≡ some w → w < length args)
    → IsFrame l more ms
        (env_of ms args)
        (suc (length rest))
        (push_all more (push_all args (callee ∷ rest)))
call-IsFrame l more ms args callee rest z b p = record {
  constants = λ k v h.
      slot-push_all more (push_all args (callee ∷ rest)) _ k v
        (omega (arith, length-push_all args (callee ∷ rest))) h;
  variables = λ x w h.
      let below = p x w h in
      let held = get_elem?_below args w below in
      (
        omega arith,
        (
          held.0,
          (
            rw (env_of, h) held.1,
            slot-push_all_below more _ _ held.0
                (slot-push_all args (callee ∷ rest) _ w held.0 refl held.1),
          ),
        ),
      );
}

module _ (ops : FloatOps) (scanner : Scanner) where
  run_call :
      (line : ℕ) (errors : List Error) (made : List Function) (ms : VarAllocMap)
      (outer : Option VarAllocMap) (e : Expr) (ws : List ℕ) (more : List TypedValue)
      (ps : Positions) (args : List TypedValue) (functions : List Function) (a : ℕ) (st : State)
      (fr : StackFrame) (rest : List TypedValue)
      → size e < 0x2000
      → length args < 0x2000
      → length args ≡ size_of ms
      → ((x : Bytes) (w : ℕ) → find_alloc ms x ≡ some w → w < length args)
      → Emits (Place more ms) e 0 ws
      → get_elem? functions a
        ≡ some (to_function (grow (start line errors made ms outer) (ws ++ (0 ∷ [])) more ps))
      → (u : State) × ((call_value functions
              (with_arguments st fr args (func a) rest)
              (func a)
              (length args)
            ≡ running u)
          × Leads ops scanner functions u (
              settle (eval ops scanner (env_of ms args) e) (λ v.
                running
                  (record st { stack = v ∷ rest; frame = some (record fr { ip = suc (fr.ip) }) }))))
  unfolding to_function call_value push_function enter push_all empty_slots generate_start operation
  run_call line errors made ms outer e ws more ps args functions a st fr rest b b' q p d h =
      let c = grow (start line errors made ms outer) (ws ++ (0 ∷ [])) more ps in
      let f = to_function c in
      let callee : StackFrame = record { func = a; ip = 0; bp = suc (length rest) } in
      let base : State = record st { call_stack = fr ∷ st.call_stack } in
      let s = push_all more (push_all args (func a ∷ rest)) in
      let ran =
        run_body ops scanner functions base callee f h (layout_of c) more ms (env_of ms args) s e ws
          (call-IsFrame (layout_of c) more ms args (func a) rest (omega arith) b' p) (omega arith) b
          d refl in
      (
        at_ base callee 0 s,
        (
          rw (h, fits, enough, bottom) refl,
          Within-Leads ops scanner functions (
              Within-settle ops scanner functions 1 (size e + 1)
                (eval ops scanner (env_of ms args) e) (λ v. at_ base callee (size e) (v ∷ s))
                (λ v.
                  running
                    (record st { stack = v ∷ rest; frame = some (record fr { ip = suc (fr.ip) }) }))
                (omega arith) ran.0
                (λ v. once ops scanner functions 1 (omega arith) (omega (arith, size-pos e)) (
                  turn ops scanner functions base callee f h (size e) 0 (v ∷ s) OpCode.return ran.1
                    (unfold decode in refl)
                  ∙ pop_function-below (at_ base callee (size e) (v ∷ s))
                      (record callee { ip = size e }) fr rest s v (st.call_stack) (func a)
                      (push_all-IsBelow more (func a ∷ rest) _
                        (push_all-IsBelow args (func a ∷ rest) (func a ∷ rest) ([], refl)))
                      refl))),
        ),
      )
    where
      fits : (size_of ms == length args) ≡ true
      fits = ground arith

      enough : leb (size_of ms + 0) (length (push_all args (func a ∷ rest))) ≡ true
      enough = ground (arith, length-push_all args (func a ∷ rest))

      bottom : length (push_all args (func a ∷ rest)) - size_of ms - 0 ≡ suc (length rest)
      bottom = omega (arith, length-push_all args (func a ∷ rest))

  -- Of a body that stands for an expression of less than 8192 words, all names of which are among
  -- the arguments, `generate_` makes a function without adding an error; a call of it with as many
  -- arguments as the function has comes, in finitely many turns, to the value of the expression for
  -- these arguments, put in the place of the callee, with the stack under it as it was and the caller
  -- behind its call, or to the failure in which the evaluation of the expression ends.
  pub call_value-Called :
      (float_equal : Float → Float → Bool) {e : Expr} {n : AstNode} (line : ℕ) (errors : List Error)
      (made : List Function) (ms : VarAllocMap) (outer : Option VarAllocMap)
      (args : List TypedValue)
      → Represents e n
      → AllNames (Known ms) e
      → size e < 0x2000
      → length args < 0x2000
      → length args ≡ size_of ms
      → ((x : Bytes) (w : ℕ) → find_alloc ms x ≡ some w → w < length args)
      → Called ops scanner e ms args errors
          (generate_ line errors made ms outer (thread float_equal n Part.whole))
  call_value-Called float_equal {e} line errors made ms outer args r k b b' q p =
      from_body (generate_-Body float_equal line errors made ms outer r k b)
    where
      from_body :
          {o : Outcome (Context × Option Function)}
          → Body float_equal e (start line errors made ms outer) o
          → Called ops scanner e ms args errors o
      from_body (body ws more ps d h) = called _ _ refl (λ before after st fr rest.
          run_call line errors made ms outer e ws more ps args _ (length before) st fr rest b b' q p
            d (get_elem?_middle before after _ (length before) refl))
