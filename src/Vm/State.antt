-- ===== src/Vm/State.antt =====
-- libjarl/vm.h: the stack, the frames and the state of the machine. The stack is the list of its
-- values, the last one first; an index counts from its bottom. It has room for all of them here: the
-- FixedVector of the source has room for 1024, unless the machine is made with another number, and
-- does not look if it is full. A borrowed value is the index of the value that it points to, in the
-- stack.
use jarl.Common.{ℕ, ◌+◌, List, [], ◌∷◌, Option, none, some, ◌==◌, if◌then◌else◌, length}
use jarl.Value.Data.{TypedValue, Failure, Result}
use jarl.Function.Apply.{PartiallyApplied}

pub record StackFrame : Type 0 where
  pub func : ℕ
  pub ip : ℕ
  pub bp : ℕ

-- A partial application, with the address of its function.
pub record Partial : Type 0 where
  pub func : ℕ
  pub applied : PartiallyApplied

-- `frame` is `none` where the frame's function is null.
pub record State : Type 0 where
  pub stack : List TypedValue
  pub call_stack : List StackFrame
  pub frame : Option StackFrame
  pub partials : List Partial

-- What a turn of the loop of `execute` ends in: the next one, the end of the loop with the stack
-- that is left, `errorJmp` of a value's operation or of the machine itself, or a failed assertion or
-- an access out of bounds. `other` is an operation on arrays, tables and iterators, or `Print`.
pub data Fate : Type 0 where
  running : State → Fate
  finished : State → Fate
  error_jmp : Failure → Fate
  wrong_arguments cannot_call unable_to_bind assertion_failed : Fate
  undefined fault other : Fate

-- `stack_[i]`
unfoldable pub slot : List TypedValue → ℕ → Option TypedValue
slot [] i = none
slot (v ∷ s) i = let rest = slot s i in if i == length s then some v else rest

-- `stack_[i] = v`
unfoldable pub put_slot : ℕ → TypedValue → List TypedValue → Option (List TypedValue)
put_slot i v [] = none
put_slot i v (w ∷ s) =
    let rest = put_slot i v s in
    if i == length s then some (v ∷ s) else elim rest [ none ↦ none | some s' ↦ some (w ∷ s') ]

abbrev pub settle {ℓ} : {T : Type ℓ} → Result T → (T → Fate) → Fate
settle (Result.ok v) k = k v
settle (Result.error_jmp e) k = error_jmp e
settle Result.undefined k = undefined

-- An access that can be out of bounds.
abbrev pub within {ℓ} : {A : Type ℓ} → Option A → (A → Fate) → Fate
within none k = fault
within (some a) k = k a

-- The next turn, `n` words further on.
abbrev pub proceed : State → StackFrame → ℕ → List TypedValue → Fate
proceed st fr n s = running (record st { frame = some (record fr { ip = fr.ip + n }); stack = s })

abbrev pub jump : State → StackFrame → ℕ → List TypedValue → Fate
jump st fr target s = running (record st { frame = some (record fr { ip = target }); stack = s })
