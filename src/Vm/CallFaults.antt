-- ===== src/Vm/CallFaults.antt =====
-- Where the calls of libjarl/vm.cpp do not do what they mean to: partial applications that are
-- called with the arguments that they lack, and a machine that is used again after an error.
use jarl.Common.{
  ℕ, zero, suc, ◌+◌, ◌-◌, ◌≤◌, ◌<◌, ◌≡◌, ◌≢◌, refl, arith, List, [], ◌∷◌, ◌++◌, none, some, length,
  get_elem?, ◌==◌, ==_iff, true, false, leb, ltb-true, drop,
}
use jarl.Value.Data.{TypedValue, partial}
use jarl.Function.Code.{Function}
use jarl.Function.Apply.{empty_slots}
use jarl.Vm.State.{StackFrame, Partial, State, Fate, fault, running}
use jarl.Vm.Calls.{
  push_all, enter, push_function, push_partial, spread, call_value, pop_function, leave_value,
}
use jarl.Vm.Step.{execute}
use jarl.Vm.CallLaws.{IsBelow, push_all-IsBelow, append-IsBelow, IsBelow-length}

get_elem?_past : (xs : List TypedValue) (i : ℕ) → length xs ≤ i → get_elem? xs i ≡ none
get_elem?_past [] i h = refl
get_elem?_past (x ∷ xs) zero h = absurd (omega arith)
get_elem?_past (x ∷ xs) (suc i) h = get_elem?_past xs i (omega arith)

same_iff : (n : ℕ) → (n == n) ≡ true
same_iff n = (==_iff n n).1 refl

other_iff : (m n : ℕ) → m ≢ n → (m == n) ≡ false
other_iff m n h = ground arith

spread_past :
    (vals : List TypedValue) (n pos1 pos2 : ℕ) (s : List TypedValue) (k : List TypedValue → Fate)
    → 0 < n
    → length vals ≤ n
    → spread vals n pos1 pos2 s k ≡ fault
unfolding spread
spread_past vals zero pos1 pos2 s k h b = absurd (omega arith)
spread_past vals (suc i) pos1 pos2 s k h b = rw (get_elem?_past vals (suc i) b) refl

-- A call of a partial application of a function without captured values, with exactly the arguments
-- that it lacks, reads past the end of its slots if it has some arguments already.
pub call_value-partial_fault :
    (functions : List Function) (st : State) (a args : ℕ) (p : Partial) (f : Function)
    → get_elem? (st.partials) a ≡ some p
    → get_elem? functions (p.func) ≡ some f
    → p.applied.nargs ≡ args
    → length (p.applied.args) ≡ f.arguments
    → args < f.arguments
    → call_value functions st (partial a) args ≡ fault
unfolding call_value push_partial spread
call_value-partial_fault functions st a args p f ep ef en el h =
    rw (ep, ef, en, same_iff args, other_iff (f.arguments) args (λ e. omega arith))
      (spread_past (p.applied.args) (f.arguments) _ _ _ _ (omega arith) (omega arith))

-- A program that is executed on a machine that an error has left with a frame and with values on its
-- stack does not come to its end: its `Return` goes on in the frame that is left over, behind the
-- operation that failed.
pub execute-after_error :
    (functions : List Function) (st : State) (old : StackFrame) (a : ℕ) (f : Function)
    → get_elem? functions a ≡ some f
    → st.frame ≡ some old
    → f.arguments + f.captures ≡ 0
    → 0 < length (st.stack)
    → (u : State) × ((fr : StackFrame) × ((execute functions a st ≡ running u)
          × ((u.frame ≡ some fr)
              × ((more : List TypedValue) (v : TypedValue)
                  → (t : List TypedValue) × (pop_function
                        (record u { stack = v ∷ (more ++ u.stack) })
                        fr
                      ≡ running (record st {
                        stack = t;
                        frame = some (record old { ip = suc (old.ip) });
                      }))))))
unfolding execute push_function enter pop_function leave_value
execute-after_error functions st old a f e h z n = (
  record st { call_stack = old ∷ st.call_stack; frame = some fr; stack = filled },
  (
    fr,
    (
      rw (e, h, enough, base) refl,
      (
        refl,
        λ more v. (
          v ∷ drop (length (more ++ filled) - (length (st.stack) - 1)) (more ++ filled),
          rw
              (
                ltb-true (length (st.stack)) (suc (length (more ++ filled))) (
                    let b = IsBelow-length (st.stack) (more ++ filled) (below more) in omega arith),
                ltb-true 0 (length (st.stack)) n,
              )
              refl,
        ),
      ),
    ),
  ),
)
  where
    fr : StackFrame
    fr = record { func = a; ip = 0; bp = length (st.stack) }

    filled : List TypedValue
    filled = push_all (empty_slots (f.locals)) (push_all (f.values) (st.stack))

    enough : leb (f.arguments + f.captures) (length (st.stack)) ≡ true
    enough = ground arith

    base : length (st.stack) - f.arguments - f.captures ≡ length (st.stack)
    base = omega arith

    below : (more : List TypedValue) → IsBelow (st.stack) (more ++ filled)
    below more = append-IsBelow more (st.stack) _ (
        push_all-IsBelow (empty_slots (f.locals)) (st.stack) _
          (push_all-IsBelow (f.values) (st.stack) (st.stack) ([], refl)))
