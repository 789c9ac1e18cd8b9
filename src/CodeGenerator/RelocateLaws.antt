-- ===== src/CodeGenerator/RelocateLaws.antt =====
-- What the correction of stack positions in `generate_` of libjarl/code_generator.cpp does to the
-- operands of pushes, and to those of jumps.
use jarl.Common.{
  ℕ, ◌+◌, ◌-◌, ◌/◌, ◌%◌, ◌^◌, ◌≤◌, ◌<◌, ◌≡◌, refl, arith, List, ◌∷◌, length, ◌==◌, if◌then◌else◌,
  ltb, ltb→lt, ltb→ge, Bool-cases, inl, inr,
}
use jarl.CodeGenerator.Context.{Context}
use jarl.CodeGenerator.Relocate.{Layout, relocate, relocate_operand, operands}
use jarl.CodeGenerator.Generate.{layout_of}

-- The values of a frame.
abbrev pub frame_size : Context → ℕ
frame_size c = c.arguments + c.captures + length (c.constants) + c.locals

-- The words that the generator puts for the places of a context, and the places in the frame.
pub data Place (c : Context) : ℕ → ℕ → Type 0 where
  argument : (i : ℕ) → i < c.arguments → Place c i i
  captured : (i : ℕ) → i < c.captures → Place c (i + 0x2000) (c.arguments + i)
  constant :
      (i : ℕ) → i < length (c.constants) → Place c (i + 0x4000) (c.arguments + c.captures + i)
  local :
      (i : ℕ)
      → i < c.locals
      → Place c (i + 0x8000) (c.arguments + c.captures + length (c.constants) + i)

relocate_operand-case :
    (l : Layout) (op q : ℕ)
    → op / 0x2000 ≡ q
    → relocate_operand l op ≡ (
        if q == 1
        then (op - 0x2000 + l.capture_pos) % 2 ^ 16
        else if q == 2
        then (op - 0x4000 + l.const_pos) % 2 ^ 16
        else if q == 4
        then (op - 0x8000 + l.local_pos) % 2 ^ 16
        else op)
unfolding relocate_operand
relocate_operand-case l op q h = rw h refl

-- In a frame of at most 8192 values, the word for an argument, a captured value, a constant or a
-- local is corrected to its place in the frame: the arguments come first, then the captured values,
-- the constants and the locals, and every place is below the number of values of the frame.
pub relocate_operand-place :
    (c : Context) (w k : ℕ)
    → frame_size c ≤ 0x2000
    → Place c w k
    → (relocate_operand (layout_of c) w ≡ k) × (k < frame_size c)
relocate_operand-place c _ _ h (argument i b) =
    (rw (relocate_operand-case (layout_of c) i 0 (omega arith)) refl, omega arith)
relocate_operand-place c _ _ h (captured i b) = (
  rw (relocate_operand-case (layout_of c) (i + 0x2000) 1 (omega arith)) (omega arith),
  omega arith,
)
relocate_operand-place c _ _ h (constant i b) = (
  rw (relocate_operand-case (layout_of c) (i + 0x4000) 2 (omega arith)) (omega arith),
  omega arith,
)
relocate_operand-place c _ _ h (local i b) = (
  rw (relocate_operand-case (layout_of c) (i + 0x8000) 4 (omega arith)) (omega arith),
  omega arith,
)

-- The jumps.
pub data IsJump : ℕ → Type 0 where
  next_or_jmp : IsJump 0x8021
  jmp : IsJump 0x8022
  jt : IsJump 0x8023
  jf : IsJump 0x8024
  jtsc : IsJump 0x8025
  jfsc : IsJump 0x8026

operands-jump : (op : ℕ) → IsJump op → operands op ≡ 2
unfolding operands
operands-jump _ next_or_jmp = refl
operands-jump _ jmp = refl
operands-jump _ jt = refl
operands-jump _ jf = refl
operands-jump _ jtsc = refl
operands-jump _ jfsc = refl

-- The address of a jump is corrected as if it were a place: one of less than 0x2000 is kept, and one
-- from 0x2000 on and below 0x4000 is taken for the place of a captured value.
pub relocate-jump :
    (l : Layout) (op target : ℕ) (code : List ℕ)
    → IsJump op
    → target < 0x4000
    → l.capture_pos < 0x2000
    → relocate l 0 (op ∷ target ∷ code)
      ≡ op
        ∷ (if ltb target 0x2000 then target else target - 0x2000 + l.capture_pos)
        ∷ relocate l 0 code
unfolding relocate
relocate-jump l op target code j b b' = elim (Bool-cases (ltb target 0x2000)) [
  | inl t ↦
      rw
        (
          t,
          operands-jump op j,
          relocate_operand-case l target 0 (let h = ltb→lt target 0x2000 t in omega arith),
        )
        refl
  | inr f ↦
      let h = ltb→ge target 0x2000 f in
      rw (f, operands-jump op j, relocate_operand-case l target 1 (omega arith), small h) refl
]
  where
    small :
        0x2000 ≤ target
        → (target - 0x2000 + l.capture_pos) % 2 ^ 16 ≡ target - 0x2000 + l.capture_pos
    small h = omega arith
