-- ===== src/Vm/CallLaws.antt =====
-- What `pushFunction_` and `popFunction_` of libjarl/vm.cpp keep: a call takes its arguments and its
-- callee off the stack, leaves the value, and goes on behind the call.
use jarl.Common.{
  ℕ, suc, ◌+◌, ◌-◌, ◌≤◌, ◌≡◌, refl, arith, List, [], ◌∷◌, ◌++◌, some, length, length-append, drop,
  leb, ltb, true,
}
use mathlib.Core.List.{append_assoc}
use jarl.Value.Data.{TypedValue}
use jarl.Function.Code.{Function}
use jarl.Function.Apply.{empty_slots}
use jarl.Vm.State.{StackFrame, State, Fate, running}
use jarl.Vm.Calls.{push_all, enter, push_function, pop_function, leave_value}

-- The values `s` are at the bottom of the stack `t`.
abbrev pub IsBelow : List TypedValue → List TypedValue → Type 0
IsBelow s t = (pre : List TypedValue) × (t ≡ pre ++ s)

pub push_all-IsBelow : (vs s t : List TypedValue) → IsBelow s t → IsBelow s (push_all vs t)
unfolding push_all
push_all-IsBelow [] s t h = h
push_all-IsBelow (v ∷ vs) s t (pre, e) = push_all-IsBelow vs s (v ∷ t) (v ∷ pre, rw e refl)

pub append-IsBelow : (xs s t : List TypedValue) → IsBelow s t → IsBelow s (xs ++ t)
append-IsBelow xs s t (pre, e) = (xs ++ pre, rw (e, append_assoc xs pre s) refl)

drop_append : (pre s : List TypedValue) → drop (length pre) (pre ++ s) ≡ s
drop_append [] s = refl
drop_append (v ∷ pre) s = drop_append pre s

drop_below : (s t : List TypedValue) → IsBelow s t → drop (length t - length s) t ≡ s
drop_below s t (pre, e) = rw (e, sizes) (drop_append pre s)
  where
    sizes : length (pre ++ s) - length s ≡ length pre
    sizes = omega (arith, length-append pre s)

pub IsBelow-length : (s t : List TypedValue) → IsBelow s t → length s ≤ length t
IsBelow-length s t (pre, e) = rw e (omega (arith, length-append pre s))

-- A function that has left values on top of the stack that it was entered with, and returns.
pub pop_function-below :
    (st : State) (fr caller : StackFrame) (rest t : List TypedValue) (v : TypedValue)
    (callers : List StackFrame)
    → (callee : TypedValue) → IsBelow (callee ∷ rest) t
    → fr.bp ≡ suc (length rest)
    → pop_function (record st { stack = v ∷ t; call_stack = caller ∷ callers }) fr
      ≡ running (record st {
        stack = v ∷ rest;
        call_stack = callers;
        frame = some (record caller { ip = suc (caller.ip) });
      })
unfolding pop_function leave_value
pop_function-below st fr caller rest t v callers callee (pre, q) e =
    rw (in_frame, not_bottom, place, drop_below rest t below) refl
  where
    below : IsBelow rest t
    below = (pre ++ (callee ∷ []), rw (q, append_assoc pre (callee ∷ []) rest) refl)

    longer : length t ≡ length pre + suc (length rest)
    longer = rw q (length-append pre (callee ∷ rest))

    in_frame : ltb (fr.bp) (suc (length t)) ≡ true
    in_frame = ground (arith, longer)

    not_bottom : ltb 0 (fr.bp) ≡ true
    not_bottom = ground arith

    place : fr.bp - 1 ≡ length rest
    place = omega arith

-- The state that `pushFunction_` enters, and what it returns to with a value `v` on top.
pub record Returned (st : State) (fr : StackFrame) (rest : List TypedValue) (r : Fate)
    : Type 0 where
  pub entered : State
  pub callee : StackFrame
  pub enters : r ≡ running entered
  pub frame : entered.frame ≡ some callee
  pub at_start : callee.ip ≡ 0
  pub returns :
      (more : List TypedValue) (v : TypedValue)
      → pop_function (record entered { stack = v ∷ (more ++ entered.stack) }) callee
        ≡ running (record st { stack = v ∷ rest; frame = some (record fr { ip = suc (fr.ip) }) })

-- When `pushFunction_` is called with as many values above the callee as the function has arguments
-- and captures, the function is entered at its beginning, and a return from it with any values left
-- above those that it was entered with puts the last one in the place of the callee, leaves the
-- stack under it, and goes on with the caller behind its call.
pub push_function-Returned :
    (st : State) (fr : StackFrame) (a : ℕ) (f : Function) (args : List TypedValue)
    (callee : TypedValue) (rest : List TypedValue)
    → length args ≡ f.arguments + f.captures
    → Returned st fr rest
        (push_function (record st { stack = args ++ (callee ∷ rest); frame = some fr }) a f)
unfolding push_function enter
push_function-Returned st fr a f args callee rest e = record {
  entered = record st {
    call_stack = fr ∷ st.call_stack;
    frame = some (record { func = a; ip = 0; bp = suc (length rest) });
    stack = push_all (empty_slots (f.locals)) (push_all (f.values) (args ++ (callee ∷ rest)));
  };
  callee = record { func = a; ip = 0; bp = suc (length rest) };
  enters = rw (enough, base) refl;
  frame = refl;
  at_start = refl;
  returns = λ more v.
      pop_function-below
        (record st { frame = some (record { func = a; ip = 0; bp = suc (length rest) }) })
        (record { func = a; ip = 0; bp = suc (length rest) }) fr rest _ v (st.call_stack) callee
        (append-IsBelow more (callee ∷ rest) _ (
          push_all-IsBelow (empty_slots (f.locals)) (callee ∷ rest) _
            (push_all-IsBelow (f.values) (callee ∷ rest) _ (args, refl))))
        refl;
}
  where
    enough : leb (f.arguments + f.captures) (length (args ++ (callee ∷ rest))) ≡ true
    enough = ground (arith, length-append args (callee ∷ rest))

    base : length (args ++ (callee ∷ rest)) - f.arguments - f.captures ≡ suc (length rest)
    base = omega (arith, length-append args (callee ∷ rest))
