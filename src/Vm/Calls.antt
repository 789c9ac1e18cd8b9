-- ===== src/Vm/Calls.antt =====
-- libjarl/vm.cpp: `pushFunction_` in its three forms, `popFunction_`, and the operations of
-- `execute` that call, bind, close over values and return.
use jarl.Common.{
  ℕ, zero, suc, ◌+◌, ◌-◌, List, [], ◌∷◌, ◌++◌, none, some, ◌==◌, if◌then◌else◌, length, take, drop,
  get_elem?, leb, ltb,
}
use jarl.Common.Outcome.{Outcome}
use jarl.Value.Data.{TypedValue, null, func, partial}
use jarl.OpCodes.{has, extended}
use jarl.OpCodes
use jarl.Function.Code.{Function}
use jarl.Function.Apply
use jarl.Function.Apply.{PartiallyApplied, is_none, apply, capture, empty_slots}
use jarl.Vm.State.{
  StackFrame, State, Fate, fault, running, finished, wrong_arguments, cannot_call, unable_to_bind,
  slot, put_slot, within, proceed,
}
use jarl.Vm.Operations.{operand}

-- `std::copy(..., std::back_inserter(stack_))`
unfoldable pub push_all : List TypedValue → List TypedValue → List TypedValue
push_all [] s = s
push_all (v ∷ vs) s = push_all vs (v ∷ s)

-- The frame that is left keeps its own place.
abbrev pub saved : State → List StackFrame
saved st = elim (st.frame) [ none ↦ st.call_stack | some fr ↦ fr ∷ st.call_stack ]

-- A frame at the beginning of the code, with the constants and the places of the locals on the
-- stack `s`; the arguments and the captured values begin at `bp`.
unfoldable pub enter : State → ℕ → Function → ℕ → List TypedValue → Fate
unfolding push_all
enter st a f bp s = running (record st {
  call_stack = saved st;
  frame = some (record { func = a; ip = 0; bp = bp });
  stack = push_all (empty_slots (f.locals)) (push_all (f.values) s);
})

unfoldable pub push_function : State → ℕ → Function → Fate
unfolding enter
push_function st a f =
    if leb (f.arguments + f.captures) (length (st.stack))
    then enter st a f (length (st.stack) - f.arguments - f.captures) (st.stack)
    else fault

-- A partial application without an empty slot.
unfoldable pub push_applied : State → ℕ → Function → PartiallyApplied → Fate
unfolding enter
push_applied st a f p =
    if p.nargs == 0 then enter st a f (length (st.stack)) (push_all (p.args) (st.stack)) else fault

-- The loop over the slots `vals[i]` of a partial application that lacks some arguments: `pos1` is
-- where the next value goes, `pos2` where the last argument of the call is.
unfoldable pub spread :
    List TypedValue → ℕ → ℕ → ℕ → List TypedValue → (List TypedValue → Fate) → Fate
spread vals zero pos1 pos2 s k = k s
spread vals (suc i) pos1 pos2 s k = within (get_elem? vals (suc i)) (λ v.
    if is_none v
    then within (slot s pos2) (λ arg.
      within (put_slot pos1 arg s)
        (λ s'. within (put_slot pos2 null s') (λ t. spread vals i (pos1 - 1) (pos2 - 1) t k)))
    else within (put_slot pos1 v s) (λ t. spread vals i (pos1 - 1) pos2 t k))

unfoldable pub push_partial : State → ℕ → Function → PartiallyApplied → ℕ → Fate
unfolding spread enter push_all
push_partial st a f p args =
    if p.nargs == args
    then (let bp = length (st.stack) - args in
        let finish : List TypedValue → Fate =
          λ s. enter st a f bp (push_all (drop (f.arguments) (p.args)) s) in
        if f.arguments == args
        then finish (st.stack)
        else (let s = push_all (empty_slots (f.arguments + f.captures - args)) (st.stack) in
            spread (p.args) (f.arguments) (length s - 2) (length s - 2 - p.nargs) s finish))
    else fault

-- `stack_[i] = std::move(stack_.back()); stack_.resize(i + 1);`
unfoldable pub leave_value : ℕ → List TypedValue → (List TypedValue → Fate) → Fate
leave_value i [] k = fault
leave_value i (v ∷ s) k = k (v ∷ drop (length s - i) s)

-- A frame without values of its own leaves the stack as it is.
unfoldable pub pop_function : State → StackFrame → Fate
unfolding leave_value
pop_function st fr = elim (st.call_stack) [
  | caller ∷ callers ↦
      let back : List TypedValue → Fate = λ s. running (record st {
        stack = s;
        call_stack = callers;
        frame = some (record caller { ip = suc (caller.ip) });
      }) in
      if ltb (fr.bp) (length (st.stack))
      then (if ltb 0 (fr.bp) then leave_value (fr.bp - 1) (st.stack) back else fault)
      else back (st.stack)
  | [] ↦
      let end : List TypedValue → Fate = λ s. finished (record st { stack = s; frame = none }) in
      if ltb 1 (length (st.stack)) then leave_value 0 (st.stack) end else end (st.stack)
]

module _ (functions : List Function) where
  -- The frame with its pointer at the last word of the operation.
  abbrev pub called_from : State → StackFrame → ℕ → State
  called_from st fr n = record st { frame = some (record fr { ip = fr.ip + n }) }

  unfoldable pub call_value : State → TypedValue → ℕ → Fate
  unfolding push_function push_partial
  call_value st (func a) args =
      within (get_elem? functions a)
        (λ f. if f.arguments == args then push_function st a f else wrong_arguments)
  call_value st (partial a) args = within (get_elem? (st.partials) a) (λ p.
      within (get_elem? functions (p.func)) (λ f.
        if p.applied.nargs == args
        then push_partial st (p.func) f (p.applied) args
        else wrong_arguments))
  call_value st _ args = cannot_call

  unfoldable pub call : State → StackFrame → Function → ℕ → Fate
  unfolding call_value
  call st fr f w =
      if has w extended
      then operand fr f (λ args.
        within (get_elem? (st.stack) args) (λ callee. call_value (called_from st fr 1) callee args))
      else within (get_elem? (st.stack) 0) (λ callee. call_value st callee 0)

  -- `stack_.emplace_back(stack_[frame_.bp + args + i])`, `n` times.
  unfoldable pub push_slots : ℕ → ℕ → List TypedValue → (List TypedValue → Fate) → Fate
  push_slots i zero s k = k s
  push_slots i (suc n) s k = within (slot s i) (λ v. push_slots (suc i) n (v ∷ s) k)

  unfoldable pub recurse_with : State → StackFrame → Function → ℕ → ℕ → Fate
  unfolding push_slots push_function
  recurse_with st fr f n args =
      if f.arguments == args
      then push_slots (fr.bp + args) (f.captures) (st.stack)
          (λ s. push_function (record (called_from st fr n) { stack = s }) (fr.func) f)
      else wrong_arguments

  unfoldable pub recurse : State → StackFrame → Function → ℕ → Fate
  unfolding recurse_with
  recurse st fr f w =
      if has w extended
      then operand fr f (λ args. recurse_with st fr f 1 args)
      else recurse_with st fr f 0 0

  -- `callee = new PartiallyApplied(...)` with the argument applied; the argument goes off the stack.
  unfoldable pub bind_to :
      State
      → ℕ
      → ℕ
      → PartiallyApplied
      → TypedValue
      → List TypedValue
      → (State → PartiallyApplied → Fate)
      → Fate
  bind_to st a i p arg s k = elim (apply arg i p) [
    | Outcome.ok p' ↦
        k
          (record st {
            stack = partial (length (st.partials)) ∷ s;
            partials = st.partials ++ (record { func = a; applied = p' } ∷ []);
          })
          p'
    | _ ↦ fault
  ]

  unfoldable pub apply_value : State → StackFrame → ℕ → ℕ → List TypedValue → Fate
  unfolding bind_to push_function push_applied
  apply_value st fr n i (arg ∷ func a ∷ s) = within (get_elem? functions a) (λ f.
      if leb (f.arguments) i
      then unable_to_bind
      else if f.arguments == 1
      then push_function (called_from st fr n) a f
      else bind_to st a i (Apply.new (f.arguments) (f.captures)) arg s
          (λ st' _. proceed st' fr (suc n) (st'.stack)))
  apply_value st fr n i (arg ∷ partial a ∷ s) = within (get_elem? (st.partials) a) (λ p.
      within (get_elem? functions (p.func)) (λ f.
        if leb (p.applied.nargs) i
        then unable_to_bind
        else bind_to st (p.func) i (p.applied) arg s (λ st' p'.
          if p'.nargs == 0
          then push_applied (called_from st' fr n) (p.func) f p'
          else proceed st' fr (suc n) (st'.stack))))
  apply_value st fr n i (arg ∷ _ ∷ s) = unable_to_bind
  apply_value st fr n i _ = fault

  unfoldable pub apply_op : State → StackFrame → Function → ℕ → Fate
  unfolding apply_value
  apply_op st fr f w =
      if has w extended
      then (if has w OpCodes.int
          then operand fr f (λ i. apply_value st fr 1 i (st.stack))
          else apply_value st fr 0 0 (st.stack))
      else apply_value st fr 0 0 (st.stack)

  abbrev pub reverse_onto : List TypedValue → List TypedValue → List TypedValue
  reverse_onto [] t = t
  reverse_onto (v ∷ s) t = reverse_onto s (v ∷ t)

  -- The last `n` values are captured by the function under them.
  unfoldable pub close_over : State → StackFrame → ℕ → ℕ → Fate
  close_over st fr n words = elim (drop n (st.stack)) [
    | func a ∷ s ↦ within (get_elem? functions a) (λ f.
        elim (capture (reverse_onto (take n (st.stack)) [])
          (Apply.new (f.arguments) (f.captures))) [
            | Outcome.ok p ↦
                proceed
                  (record st { partials = st.partials ++ (record { func = a; applied = p } ∷ []) })
                  fr words (partial (length (st.partials)) ∷ s)
            | _ ↦ fault
          ])
    | _ ↦ fault
  ]

  unfoldable pub create_closure : State → StackFrame → Function → ℕ → Fate
  unfolding close_over
  create_closure st fr f w =
      if has w extended
      then (if has w OpCodes.int
          then operand fr f (λ n. close_over st fr n 2)
          else close_over st fr 1 1)
      else close_over st fr 1 1
