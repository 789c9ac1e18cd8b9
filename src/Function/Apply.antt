-- ===== src/Function/Apply.antt =====
-- libjarl/function.cpp: `PartiallyApplied`. Its reference to the function is the arity that it
-- reads of it; a failed `assert` is a fault.
use jarl.Common.{
  ℕ, zero, suc, ◌+◌, ◌-◌, Bool, true, false, List, [], ◌∷◌, ltb, ◌==◌, if◌then◌else◌, length,
}
use jarl.Common.Outcome.{Outcome, ok, fault, bind}
use jarl.Value.Data.{TypedValue, none}

pub record PartiallyApplied : Type 0 where
  pub arguments : ℕ
  pub captures : ℕ
  pub args : List TypedValue
  pub nargs : ℕ

abbrev pub is_none : TypedValue → Bool
is_none none = true
is_none _ = false

unfoldable pub empty_slots : ℕ → List TypedValue
empty_slots zero = []
empty_slots (suc n) = none ∷ empty_slots n

unfoldable pub new : ℕ → ℕ → PartiallyApplied
new arguments captures = record {
  arguments = arguments;
  captures = captures;
  args = empty_slots (arguments + captures);
  nargs = arguments;
}

-- The loop of `apply`: the value goes to the empty slot with `bind_pos` empty ones before it.
unfoldable pub bind_slot : TypedValue → ℕ → List TypedValue → List TypedValue
bind_slot val bind_pos [] = []
bind_slot val zero (slot ∷ slots) =
    let rest = bind_slot val zero slots in if is_none slot then val ∷ slots else slot ∷ rest
bind_slot val (suc bind_pos) (slot ∷ slots) =
    slot ∷ bind_slot val (if is_none slot then bind_pos else suc bind_pos) slots

unfoldable pub apply : TypedValue → ℕ → PartiallyApplied → Outcome PartiallyApplied
apply val bind_pos p =
    if ltb 0 p.nargs
    then ok (record {
      arguments = p.arguments;
      captures = p.captures;
      args = bind_slot val bind_pos p.args;
      nargs = p.nargs - 1;
    })
    else fault

-- `args_[bind_pos] = std::move(*from)`, outside of the vector undefined.
unfoldable pub put_at : ℕ → TypedValue → List TypedValue → Outcome (List TypedValue)
put_at i val [] = fault
put_at zero val (slot ∷ slots) = ok (val ∷ slots)
put_at (suc i) val (slot ∷ slots) = bind (put_at i val slots) (λ rest. ok (slot ∷ rest))

-- The loop of `capture`.
unfoldable pub capture_from : ℕ → List TypedValue → List TypedValue → Outcome (List TypedValue)
capture_from bind_pos [] args = ok args
capture_from bind_pos (val ∷ vals) args =
    bind (put_at bind_pos val args) (λ args'. capture_from (suc bind_pos) vals args')

unfoldable pub capture : List TypedValue → PartiallyApplied → Outcome PartiallyApplied
capture vals p =
    if length vals == p.captures
    then bind (capture_from p.arguments vals p.args) (λ args.
      ok (record { arguments = p.arguments; captures = p.captures; args = args; nargs = p.nargs }))
    else fault
