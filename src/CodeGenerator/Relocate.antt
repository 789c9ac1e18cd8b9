-- ===== src/CodeGenerator/Relocate.antt =====
-- libjarl/code_generator.cpp, `generate_`: the loop that corrects the stack positions in the words
-- of a function, and what becomes of the context of a tree.
use jarl.Common.{ℕ, zero, suc, ◌+◌, ◌-◌, ◌/◌, List, [], ◌∷◌, ◌==◌, if◌then◌else◌}
use jarl.OpCodes.{has, extended, extended2, int, word}

-- `capture_pos`, `const_pos` and `local_pos`.
pub record Layout : Type 0 where
  pub capture_pos : ℕ
  pub const_pos : ℕ
  pub local_pos : ℕ

-- The `switch` on the upper three bits of an operand. What is taken off is the bit of the case.
unfoldable pub relocate_operand : Layout → ℕ → ℕ
relocate_operand l op =
    if op / 0x2000 == 1
    then word (op - 0x2000 + l.capture_pos)
    else if op / 0x2000 == 2
    then word (op - 0x4000 + l.const_pos)
    else if op / 0x2000 == 4
    then word (op - 0x8000 + l.local_pos)
    else op

-- What `extended` becomes after the word of an operation.
unfoldable pub operands : ℕ → ℕ
operands op =
    if has op extended then if has op int then 1 else if has op extended2 then 4 else 2 else 0

-- The loop, from a value of `extended` on.
unfoldable pub relocate : Layout → ℕ → List ℕ → List ℕ
relocate l state [] = []
relocate l zero (op ∷ code) = op ∷ relocate l (operands op) code
relocate l (suc zero) (op ∷ code) = op ∷ relocate l 0 code
relocate l (suc (suc n)) (op ∷ code) = relocate_operand l op ∷ relocate l n code
