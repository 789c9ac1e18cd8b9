-- ===== src/CodeGenerator/Context.antt =====
-- libjarl/code_generator.cpp: the `ThreadingContext`, with the operations on it. A `VarAllocMap` is
-- the chain of its maps, the inner scope first; strings are interned, so that their addresses are
-- told apart like their bytes. The `Function`s made so far are a list, and the address of one is its
-- place there.
use mathlib.Core.Bool.{not}
use jarl.Common.{
  ℕ, suc, ◌+◌, Bool, true, false, List, [], ◌∷◌, ◌++◌, Option, none, some, if◌then◌else◌, get_elem?,
  eqb_ℤ,
}
use jarl.Common.Outcome
use jarl.Common.Outcome.{Outcome, ok, fault}
use jarl.Lexeme.{Float, Bytes}
use jarl.Errors.{Error, Message}
use jarl.Value.Data.{TypedValue, null, bool, int, float, string}
use jarl.Function.Lines.{ThreadingContext, put_instruction}
use jarl.Function.Code.{Function}
use jarl.Containers.VectorSet
use jarl.Containers.VectorMap
use jarl.Containers.VectorMap.{Entry}
use jarl.Containers.DelegateMap
use jarl.OpCodes.{OpCode, code_of, word, with_flag}
use jarl.CodeGenerator.Names.{names}

abbrev pub VarAllocMap : Type 0
VarAllocMap = List (List (Entry Bytes ℕ))

pub record Context : Type 0 where
  pub out : ThreadingContext
  pub var_allocs : VarAllocMap
  pub context_var_allocs : Option VarAllocMap
  pub constants : List TypedValue
  pub arguments : ℕ
  pub captures : ℕ
  pub locals : ℕ
  pub errors : List Error
  pub functions : List Function

-- A step of the generator, which can fail at an assertion.
abbrev pub Gen : Type 0
Gen = Context → Outcome Context

infixl 5 ◌>>◌
abbrev pub ◌>>◌ : Gen → Gen → Gen
(m >> k) c = Outcome.bind (m c) k

abbrev pub skip : Gen
skip c = ok c

abbrev pub stop : Gen
stop c = fault

abbrev pub stack_pos_local : ℕ
stack_pos_local = 0x8000

abbrev pub stack_pos_const : ℕ
stack_pos_const = 0x4000

abbrev pub stack_pos_capture : ℕ
stack_pos_capture = 0x2000

-- `D_putInstruction`, of the line `pos`.
unfoldable pub put : ℕ → ℕ → Gen
put op pos c = ok (record c { out = put_instruction op pos c.out })

-- `code[addr] = value`
unfoldable pub set_elem : ℕ → ℕ → List ℕ → List ℕ
set_elem i v [] = []
set_elem Prim.Native.Nat.zero v (w ∷ ws) = v ∷ ws
set_elem (suc i) v (w ∷ ws) = w ∷ set_elem i v ws

unfoldable pub patch : ℕ → ℕ → Gen
patch addr value c =
    ok (record c { out = record (c.out) { code = set_elem addr value (c.out.code) } })

unfoldable pub report : ℕ → Message → Gen
report line msg c =
    ok (record c { errors = c.errors ++ (record { line = some line; message = msg } ∷ []) })

-- `newScope()`, and what its guard does at the end.
unfoldable pub enter_scope : Gen
enter_scope c = ok (record c { var_allocs = [] ∷ c.var_allocs })

unfoldable pub leave_scope : Gen
leave_scope c = ok (record c { var_allocs = elim (c.var_allocs) [ [] ↦ [] | _ ∷ ms ↦ ms ] })

-- The value under an iterator of `DelegateMap::find`.
unfoldable pub find_alloc : VarAllocMap → Bytes → Option ℕ
find_alloc ms x = elim (DelegateMap.find names ms x) [
  | none ↦ none
  | some it ↦ elim (get_elem? ms (it.0)) [
    | none ↦ none
    | some m ↦ elim (get_elem? m (it.1)) [ none ↦ none | some e ↦ some (e.second) ]
  ]
]

-- `map[x] = pos`
unfoldable pub set_entry : Bytes → ℕ → List (Entry Bytes ℕ) → List (Entry Bytes ℕ)
set_entry x pos m =
    let r = VectorMap.subscript names 0 x m in VectorMap.assign names (r.1) pos (r.0)

-- `var_allocs->direct()[x] = pos` and `var_allocs->base()[x] = pos`
unfoldable pub set_direct : Bytes → ℕ → VarAllocMap → VarAllocMap
set_direct x pos [] = []
set_direct x pos (m ∷ ms) = set_entry x pos m ∷ ms

unfoldable pub set_base : Bytes → ℕ → VarAllocMap → VarAllocMap
set_base x pos [] = []
set_base x pos (m ∷ []) = set_entry x pos m ∷ []
set_base x pos (m ∷ d ∷ ms) = m ∷ set_base x pos (d ∷ ms)

module _ (float_equal : Float → Float → Bool) where
  -- `std::equal_to<TypedValue>`: what is not listed differs from everything, itself included.
  unfoldable pub equal_to : TypedValue → TypedValue → Bool
  equal_to null null = true
  equal_to (bool a) (bool b) = if a then b else not b
  equal_to (int i) (int j) = eqb_ℤ i j
  equal_to (float f) (float g) = float_equal f g
  equal_to (string s) (string t) = names.comp s t
  equal_to _ _ = false

  -- `Push | Extended` and the place of the value among the constants.
  unfoldable pub push_constant : TypedValue → ℕ → Gen
  push_constant v pos c =
      let r = VectorSet.emplace equal_to v (c.constants) in
      (put (code_of OpCode.push + 0x8000) pos
          >> ((λ c'. ok (record c' { constants = r.0 }))
              >> put (word (with_flag (r.1) stack_pos_const)) pos))
        c
