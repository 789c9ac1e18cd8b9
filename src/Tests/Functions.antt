-- ===== src/Tests/Functions.antt =====
-- The lines of a small piece of code, and a closure of two arguments and a captured value.
use jarl.Common.{arith, ◌≡◌, suc, refl, List, [], ◌∷◌, ◌++◌, some, get_elem?, pos}
use jarl.Common.Outcome.{Returns, bind}
use jarl.Value.Data.{TypedValue, int, none, null}
use jarl.Function.Lines.{Word, get_line, back, put_all, put_instruction, generate_start}
use jarl.Function.LinesLaws.{lines, written, get_line-written, get_line-last}
use jarl.Function.Apply.{PartiallyApplied, new, apply, capture}
use jarl.Function.Slots.{IsReady, Fills, empties}
use jarl.Function.ApplyLaws.{Capturing, apply-Fills, capture-new, apply_all, apply_all-capture}

-- A push with its operand from line 3, then an instruction from line 4.
abbrev words : List Word
words = record { op = 1; line = 3 } ∷ record { op = 7; line = 3 } ∷ record { op = 2; line = 4 } ∷ []

second-words : (back (written 3 words)).second ≡ 2
unfolding put_all put_instruction generate_start
second-words = refl

get_line-written_example : get_elem? (lines words) 1 ≡ some (get_line (written 3 words) 1)
get_line-written_example = get_line-written 3 words 1 (omega (arith, second-words))

get_line-last_example : get_line (written 3 words) 2 ≡ (back (written 3 words)).second
get_line-last_example = get_line-last 3 words 2 (omega (arith, second-words))

abbrev one : TypedValue
one = int (pos 1)

abbrev two : TypedValue
two = int (pos 2)

-- Two empty slots and a captured value.
abbrev closure : PartiallyApplied
closure = record { arguments = 2; captures = 1; args = none ∷ none ∷ null ∷ []; nargs = 2 }

closure-IsReady : IsReady closure
unfolding empties
closure-IsReady = record { slots = refl; counted = refl }

apply-Fills_example :
    Returns
      (λ q. IsReady q × (closure.nargs ≡ suc q.nargs) × Fills two 1 closure.args q.args)
      (apply two 1 closure)
apply-Fills_example = apply-Fills two 1 closure closure-IsReady refl (omega arith)

capture-new_example : Capturing 2 1 (null ∷ []) (capture (null ∷ []) (new 2 1))
capture-new_example = capture-new 2 1 (null ∷ []) (refl, tt)

apply_all-capture_example :
    Returns
      (λ q. (q.args ≡ (one ∷ two ∷ []) ++ (null ∷ [])) × (q.nargs ≡ 0))
      (bind (capture (null ∷ []) (new 2 1)) (λ p. apply_all (one ∷ two ∷ []) p))
apply_all-capture_example =
    apply_all-capture (one ∷ two ∷ []) (null ∷ []) (refl, (refl, tt)) (refl, tt)
