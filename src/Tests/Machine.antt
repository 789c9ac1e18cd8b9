-- ===== src/Tests/Machine.antt =====
-- Programs that are generated and run.
use mathlib.Core.Option.{some-injective}
use jarl.Common.{
  ◌+◌, ◌≤◌, ◌*◌, ℕ, [], ◌∷◌, List, true, false, none, some, pos, ◌==◌, arith, ◌<◌, ◌≡◌, refl,
  Bool-cases, inl, inr, ◌⊎◌, sym, ◌∙◌, ◌++◌,
}
use jarl.Common.Outcome.{ok}
use jarl.Value.Data.{TypedValue, int, func, partial, none as empty}
use jarl.Function.Code.{Function}
use jarl.Containers.VectorMap
use jarl.Containers.VectorMap.{Entry}
use jarl.Containers.DelegateMap
use jarl.CodeGenerator.Names.{names, same_bytes}
use jarl.CodeGenerator.Context.{VarAllocMap, Context, find_alloc}
use jarl.CodeGenerator.Thread.{Part}
use jarl.CodeGenerator.Relocate.{relocate, relocate_operand}
use jarl.CodeGenerator.RelocateLaws
use jarl.CodeGenerator.RelocateLaws.{frame_size, relocate_operand-place, relocate-jump}
use jarl.Vm.State.{StackFrame, Partial, State, running, fault, settle}
use jarl.Vm.Calls.{push_function, call_value, pop_function}
use jarl.Vm.Step.{run, execute, new_machine}
use jarl.Vm.CallLaws.{Returned, push_function-Returned}
use jarl.Vm.CallFaults.{call_value-partial_fault, execute-after_error}
use jarl.Correct.Ends.{ended_with, generate-run}
use jarl.Correct.Within.{height}
use jarl.Correct.Call.{Called, call_value-Called}
use jarl.Ast.{AstNode, leaf, two, AstNodeType as A, Flags}
use jarl.Lexeme.{Bytes, int_value, bool_value, string_value}
use jarl.Value.Convert.{Scanner}
use jarl.CodeGenerator.Generate.{generate, generate_, thread, size_of, layout_of, start}
use jarl.Tests.Inputs.{float_ops}
use jarl.Correct.Expr.{Expr, Binary, Represents, size, eval}
use jarl.Correct.Program.{Computes, generate-Computes}

abbrev scanner : Scanner
scanner = record { scan_int = λ s. none; scan_float = λ s. none }

-- `if(false or 40000) 1 / 2 else 3`
abbrev choice : Expr
choice =
    Expr.choose (Expr.logic true (Expr.truth false) (Expr.number 40000))
      (Expr.binary Binary.div (Expr.number 1) (Expr.number 2)) (Expr.number 3)

abbrev number_node : ℕ → AstNode
number_node n = leaf A.int Flags.value (1, 0) (int_value (pos n))

abbrev choice_tree : AstNode
choice_tree =
    two A.if_ Flags.value (1, 0)
      (two A.or_ Flags.value (1, 0) (leaf A.bool Flags.value (1, 0) (bool_value false))
        (number_node 40000))
      (two A.else_ Flags.unset (1, 0) (two A.div Flags.value (1, 0) (number_node 1) (number_node 2))
        (number_node 3))

choice-Represents : Represents choice choice_tree
choice-Represents =
    Represents.choose (Represents.logic true (Represents.truth false) (Represents.number 40000))
      (Represents.binary Binary.div (Represents.number 1) (Represents.number 2))
      (Represents.number 3)

choice-short : size choice < 0x2000
unfolding size
choice-short = omega arith

generate-Computes_example :
    Computes float_ops scanner choice [] (generate (λ a b. a == b) choice_tree [])
generate-Computes_example =
    generate-Computes float_ops scanner (λ a b. a == b) [] choice-Represents
      ((tt, tt), ((tt, tt), tt)) choice-short

-- A function of two arguments and one local.
abbrev binary_function : Function
binary_function = record {
  code = 0 ∷ [];
  values = int (pos 7) ∷ [];
  code_positions = record { head = record { first = 1; second = 0 }; tail = [] };
  arguments = 2;
  captures = 0;
  locals = 1;
}

generate-run_example :
    (c : Context) × ((f : Function) × ((generate (λ a b. a == b) choice_tree [] ≡ ok (c, some f))
        × ((run float_ops scanner
                (binary_function ∷ f ∷ [])
                (size choice + 1)
                (execute (binary_function ∷ f ∷ []) 1 new_machine)
              ≡ settle (eval float_ops scanner (λ _. none) choice) ended_with)
            × (height (
                  run float_ops scanner
                    (binary_function ∷ f ∷ [])
                    3
                    (execute (binary_function ∷ f ∷ []) 1 new_machine))
                ≤ 2 * size choice))))
generate-run_example =
    generate-run float_ops scanner (λ a b. a == b) [] (binary_function ∷ []) [] 3 choice-Represents
      ((tt, tt), ((tt, tt), tt)) choice-short

-- The body `x + 1` of a function of `x`.
abbrev next_of : Expr
next_of = Expr.binary Binary.add (Expr.name (120 ∷ [])) (Expr.number 1)

abbrev next_tree : AstNode
next_tree =
    two A.add Flags.value (1, 0) (leaf A.identifier Flags.value (1, 0) (string_value (120 ∷ [])))
      (number_node 1)

abbrev of_x : VarAllocMap
of_x = (record { first = 120 ∷ []; second = 0 } ∷ []) ∷ []

next_of-Represents : Represents next_of next_tree
next_of-Represents = Represents.binary Binary.add (Represents.name (120 ∷ [])) (Represents.number 1)

next_of-short : size next_of < 0x2000
unfolding size
next_of-short = omega arith

find_alloc-of_x : (x : Bytes) → (find_alloc of_x x ≡ some 0) ⊎ (find_alloc of_x x ≡ none)
unfolding find_alloc DelegateMap.find VectorMap.find
find_alloc-of_x x = elim (Bool-cases (same_bytes (120 ∷ []) x)) [
  | inl t ↦ inl (rw (find_alloc, DelegateMap.find, VectorMap.find, names, t) refl)
  | inr f ↦ inr (rw (find_alloc, DelegateMap.find, VectorMap.find, names, f) refl)
]

of_x-below : (x : Bytes) (w : ℕ) → find_alloc of_x x ≡ some w → w < 1
of_x-below x w h = elim (find_alloc-of_x x) [
  | inl t ↦ let e = some-injective 0 w (sym t ∙ h) in omega arith
  | inr f ↦ absurd cc
]

of_x-found : find_alloc of_x (120 ∷ []) ≡ some 0
unfolding find_alloc DelegateMap.find VectorMap.find same_bytes
of_x-found = refl

of_x-size : 1 ≡ size_of of_x
unfolding size_of
of_x-size = refl

call_value-Called_example :
    Called float_ops scanner next_of of_x
      (int (pos 41) ∷ [])
      []
      (generate_ 1 [] [] of_x none (thread (λ a b. a == b) next_tree Part.whole))
call_value-Called_example =
    call_value-Called float_ops scanner (λ a b. a == b) 1 [] [] of_x none (int (pos 41) ∷ [])
      next_of-Represents ((0, of_x-found), tt) next_of-short (omega arith) of_x-size of_x-below

-- A caller in the middle of its code.
abbrev calling : StackFrame
calling = record { func = 3; ip = 11; bp = 1 }

push_function-Returned_example : Returned new_machine calling (int (pos 5) ∷ []) (
    push_function
      (record new_machine {
        stack = int (pos 2) ∷ int (pos 1) ∷ func 0 ∷ int (pos 5) ∷ [];
        frame = some calling;
      })
      0
      binary_function)
push_function-Returned_example =
    push_function-Returned new_machine calling 0 binary_function (int (pos 2) ∷ int (pos 1) ∷ [])
      (func 0) (int (pos 5) ∷ []) refl

-- An application of it to one argument.
abbrev half_applied : Partial
half_applied = record {
  func = 0;
  applied = record { arguments = 2; captures = 0; args = int (pos 1) ∷ empty ∷ []; nargs = 1 };
}

abbrev with_partial : State
with_partial = record new_machine { partials = half_applied ∷ [] }

call_value-partial_fault_example :
    call_value (binary_function ∷ []) with_partial (partial 0) 1 ≡ fault
call_value-partial_fault_example =
    call_value-partial_fault (binary_function ∷ []) with_partial 0 1 half_applied binary_function
      refl refl refl refl (omega arith)

-- A machine that an error has left with a frame.
abbrev left_over : State
left_over = record new_machine { stack = func 0 ∷ []; frame = some calling }

abbrev program : Function
program = record binary_function { arguments = 0 }

execute-after_error_example :
    (u : State) × ((fr : StackFrame) × ((execute (program ∷ []) 0 left_over ≡ running u)
        × ((u.frame ≡ some fr)
            × ((more : List TypedValue) (v : TypedValue)
                → (t : List TypedValue) × (pop_function
                      (record u { stack = v ∷ (more ++ u.stack) })
                      fr
                    ≡ running (record left_over {
                      stack = t;
                      frame = some (record calling { ip = 12 });
                    }))))))
execute-after_error_example =
    execute-after_error (program ∷ []) left_over calling 0 program refl refl refl (omega arith)

-- The generator in a function of one argument with three constants.
abbrev generating : Context
generating = record (start 1 [] [] of_x none) {
  arguments = 1;
  constants = int (pos 1) ∷ int (pos 2) ∷ int (pos 3) ∷ [];
}

relocate_operand-place_example :
    (relocate_operand (layout_of generating) 0x4002 ≡ 3) × (3 < frame_size generating)
relocate_operand-place_example =
    relocate_operand-place generating 0x4002 3 (omega arith)
      (RelocateLaws.Place.constant 2 (omega arith))

relocate-jump_example :
    relocate (layout_of generating) 0 (0x8022 ∷ 0x2005 ∷ [])
    ≡ 0x8022 ∷ 6 ∷ relocate (layout_of generating) 0 []
relocate-jump_example =
    relocate-jump (layout_of generating) 0x8022 0x2005 [] RelocateLaws.IsJump.jmp (omega arith)
      (omega arith)
