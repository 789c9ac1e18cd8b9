-- ===== src/Correct/Emitted.antt =====
-- How many words the code of an expression has.
use jarl.Common.{◌<◌, ℕ, ◌+◌, ◌≡◌, refl, arith, List, [], ◌∷◌, ◌++◌, length, length-append, sym}
use jarl.Correct.Expr.{Expr, size, Emits, unary_word, binary_word, logic_word, inline, operand}

pub Emits-length :
    {P : Expr → ℕ → Type 0} {e : Expr} {i : ℕ} {ws : List ℕ} → Emits P e i ws → length ws ≡ size e
unfolding size
Emits-length Emits.null = refl
Emits-length (Emits.truth b) = refl
Emits-length (inline h) = refl
Emits-length (operand s h) = sym s
Emits-length (Emits.unary {ws = ws} u h) =
    omega (arith, length-append ws (unary_word u ∷ []), Emits-length h)
Emits-length (Emits.binary {ws = ws} {vs = vs} o h k) = omega (
  arith,
  length-append ws (vs ++ (binary_word o ∷ [])),
  length-append vs (binary_word o ∷ []),
  Emits-length h,
  Emits-length k,
)
Emits-length (Emits.logic {i = i} {a = a} {b = b} {ws = ws} {vs = vs} stop h k) = omega (
  arith,
  length-append ws (logic_word stop ∷ (i + size a + 2 + size b) ∷ vs),
  Emits-length h,
  Emits-length k,
)
Emits-length (Emits.choose {i = i} {c = c} {a = a} {b = b} {ws = ws} {vs = vs} {us = us} h k l) =
    omega (
      arith,
      length-append ws (
          0x8024
          ∷ (i + size c + 2 + size a + 2)
          ∷ (vs ++ (0x8022 ∷ (i + size c + 2 + size a + 2 + size b) ∷ us))),
      length-append vs (0x8022 ∷ (i + size c + 2 + size a + 2 + size b) ∷ us),
      Emits-length h,
      Emits-length k,
      Emits-length l,
    )

pub size-pos : (e : Expr) → 0 < size e
unfolding size
size-pos Expr.null = omega arith
size-pos (Expr.truth b) = omega arith
size-pos (Expr.number n) = omega arith
size-pos (Expr.text s) = omega arith
size-pos (Expr.name x) = omega arith
size-pos (Expr.unary u e) = omega arith
size-pos (Expr.binary o a b) = omega arith
size-pos (Expr.logic stop a b) = omega arith
size-pos (Expr.choose c a b) = omega arith
