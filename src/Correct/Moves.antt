-- ===== src/Correct/Moves.antt =====
-- The loop of `generate_` in libjarl/code_generator.cpp that corrects stack positions, on the words
-- of an expression: it moves the operands of the pushes, and nothing else.
use mathlib.Core.List.{append_assoc}
use jarl.Common.{ℕ, ◌+◌, ◌/◌, ◌≡◌, ◌<◌, refl, arith, Bool, true, false, List, [], ◌∷◌, ◌++◌}
use jarl.Value.Compare.{CmpMode}
use jarl.CodeGenerator.Relocate.{Layout, relocate, relocate_operand, operands}
use jarl.Correct.Expr.{
  Expr, Unary, Binary, size, Emits, unary_word, binary_word, logic_word, truth_word, inline,
  operand,
}

-- An address below 0x2000 is left as it is.
pub relocate_small : (l : Layout) (n : ℕ) → n < 0x2000 → relocate_operand l n ≡ n
unfolding relocate_operand
relocate_small l n h = rw quotient refl
  where
    quotient : n / 0x2000 ≡ 0
    quotient = omega arith

module _ (l : Layout) where
  single :
      (op : ℕ) (rest : List ℕ) → operands op ≡ 0 → relocate l 0 (op ∷ rest) ≡ op ∷ relocate l 0 rest
  unfolding relocate
  single op rest h = rw h refl

  double :
      (op n : ℕ) (rest : List ℕ)
      → operands op ≡ 2
      → relocate l 0 (op ∷ n ∷ rest) ≡ op ∷ relocate_operand l n ∷ relocate l 0 rest
  unfolding relocate
  double op n rest h = rw h refl

  operands-truth : (b : Bool) → operands (truth_word b) ≡ 0
  unfolding operands
  operands-truth true = refl
  operands-truth false = refl

  operands-unary : (u : Unary) → operands (unary_word u) ≡ 0
  unfolding operands
  operands-unary Unary.neg = refl
  operands-unary Unary.not_ = refl

  operands-binary : (o : Binary) → operands (binary_word o) ≡ 0
  unfolding operands
  operands-binary Binary.add = refl
  operands-binary Binary.sub = refl
  operands-binary Binary.mul = refl
  operands-binary Binary.div = refl
  operands-binary Binary.mod_ = refl
  operands-binary Binary.order = refl
  operands-binary (Binary.compare CmpMode.equal) = refl
  operands-binary (Binary.compare CmpMode.not_equal) = refl
  operands-binary (Binary.compare CmpMode.greater) = refl
  operands-binary (Binary.compare CmpMode.less) = refl
  operands-binary (Binary.compare CmpMode.greater_equal) = refl
  operands-binary (Binary.compare CmpMode.less_equal) = refl

  operands-logic : (stop : Bool) → operands (logic_word stop) ≡ 2
  unfolding operands
  operands-logic true = refl
  operands-logic false = refl

  -- What the loop makes of words, in front of any other.
  abbrev Becomes : List ℕ → List ℕ → Type 0
  Becomes ws vs = (rest : List ℕ) → relocate l 0 (ws ++ rest) ≡ vs ++ relocate l 0 rest

  Becomes-append :
      (ws vs xs ys : List ℕ) → Becomes ws vs → Becomes xs ys → Becomes (ws ++ xs) (vs ++ ys)
  Becomes-append ws vs xs ys h k rest = rw (append_assoc ws xs rest, h, k, append_assoc) refl

  Becomes-single : (op : ℕ) → operands op ≡ 0 → Becomes (op ∷ []) (op ∷ [])
  Becomes-single op h rest = single op rest h

  Becomes-double :
      (op n : ℕ) → operands op ≡ 2 → Becomes (op ∷ n ∷ []) (op ∷ relocate_operand l n ∷ [])
  Becomes-double op n h rest = double op n rest h

  Becomes-jump :
      (op n : ℕ) (xs ys : List ℕ)
      → operands op ≡ 2
      → n < 0x2000
      → Becomes xs ys
      → Becomes (op ∷ n ∷ xs) (op ∷ n ∷ ys)
  Becomes-jump op n xs ys h b k rest = rw (double op n (xs ++ rest) h, relocate_small l n b, k) refl

  Becomes-inline : (n : ℕ) → Becomes (0x9002 ∷ n ∷ []) (0x9002 ∷ n ∷ [])
  unfolding relocate operands
  Becomes-inline n rest = refl

  pub Emits-Becomes :
      {P Q : Expr → ℕ → Type 0}
      → ((e : Expr) (w : ℕ) → P e w → Q e (relocate_operand l w))
      → {e : Expr} {i : ℕ} {ws : List ℕ} → Emits P e i ws
      → i + size e < 0x2000
      → (vs : List ℕ) × (Emits Q e i vs × Becomes ws vs)
  unfolding size
  Emits-Becomes m Emits.null b = (2 ∷ [], (Emits.null, Becomes-single 2 (unfold operands in refl)))
  Emits-Becomes {Q = Q} m (Emits.truth t) b =
      (truth_word t ∷ [], (Emits.truth t, Becomes-single (truth_word t) (operands-truth t)))
  Emits-Becomes {Q = Q} m (inline {n = n} h) b = (0x9002 ∷ n ∷ [], (inline h, Becomes-inline n))
  Emits-Becomes {Q = Q} m (operand {w = w} {e = e} z h) b = (
    0x8002 ∷ relocate_operand l w ∷ [],
    (operand z (m e w h), Becomes-double 0x8002 w (unfold operands in refl)),
  )
  Emits-Becomes {Q = Q} m (Emits.unary {ws = ws} u d) b =
      let r = Emits-Becomes {Q = Q} m d (omega arith) in
      (
        r.0 ++ (unary_word u ∷ []),
        (
          Emits.unary u r.1.0,
          Becomes-append ws r.0 _ _ r.1.1 (Becomes-single (unary_word u) (operands-unary u)),
        ),
      )
  Emits-Becomes {Q = Q} m (Emits.binary {ws = ws} {vs = vs} o d d') b =
      let r = Emits-Becomes {Q = Q} m d (omega arith) in
      let r' = Emits-Becomes {Q = Q} m d' (omega arith) in
      (
        r.0 ++ (r'.0 ++ (binary_word o ∷ [])),
        (
          Emits.binary o r.1.0 r'.1.0,
          Becomes-append ws r.0 _ _ r.1.1 (
              Becomes-append vs r'.0 _ _ r'.1.1
                (Becomes-single (binary_word o) (operands-binary o))),
        ),
      )
  Emits-Becomes {Q = Q} m (Emits.logic {i = i} {a = a} {b = c} {ws = ws} {vs = vs} stop d d') b =
      let target = i + size a + 2 + size c in
      let r = Emits-Becomes {Q = Q} m d (omega arith) in
      let r' = Emits-Becomes {Q = Q} m d' (omega arith) in
      (
        r.0 ++ (logic_word stop ∷ target ∷ r'.0),
        (
          Emits.logic stop r.1.0 r'.1.0,
          Becomes-append ws r.0 _ _ r.1.1 (
              Becomes-jump (logic_word stop) target vs r'.0 (operands-logic stop) (omega arith)
                r'.1.1),
        ),
      )
  Emits-Becomes {Q = Q} m
        (Emits.choose {i = i} {c = c} {a = a} {b = b} {ws = ws} {vs = vs} {us = us} d d' d'') h =
      let other = i + size c + 2 + size a + 2 in
      let r = Emits-Becomes {Q = Q} m d (omega arith) in
      let r' = Emits-Becomes {Q = Q} m d' (omega arith) in
      let r'' = Emits-Becomes {Q = Q} m d'' (omega arith) in
      (
        r.0 ++ (0x8024 ∷ other ∷ (r'.0 ++ (0x8022 ∷ (other + size b) ∷ r''.0))),
        (
          Emits.choose r.1.0 r'.1.0 r''.1.0,
          Becomes-append ws r.0 _ _ r.1.1 (
              Becomes-jump 0x8024 other _ (r'.0 ++ (0x8022 ∷ (other + size b) ∷ r''.0))
                (unfold operands in refl) (omega arith)
                (Becomes-append vs r'.0 _ _ r'.1.1 (
                  Becomes-jump 0x8022 (other + size b) us r''.0 (unfold operands in refl)
                    (omega arith) r''.1.1))),
        ),
      )
