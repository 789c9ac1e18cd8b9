-- ===== src/Parser/Climbing.antt =====
-- One round of `Parser::expression_` of libjarl/parser.cpp at a time: the loop on an operator and
-- on a lexeme that ends it, and an operand.
use jarl.Common.{ℕ, zero, suc, ◌≡◌, ◌≤◌, ◌<◌, refl, List, ◌∷◌, ltb-true, ltb-false, arith}
use jarl.Common.Outcome
use jarl.Common.Outcome.{Outcome, ok}
use jarl.Errors.{Error}
use jarl.Lexeme.{Lexeme, LexemeType as L, Pos, code, of_type}
use jarl.Ast.{AstNode, new_two}
use jarl.Parser.State.{ParserState, P, bindp, next, advance, look, current}
use jarl.Parser.Led.{led, left_assoc, right_assoc, binary_type, right_assoc_type}
use jarl.Parser.Climb.{led_loop}
use jarl.Parser.Grammar.{Operator, symbol, node, precedence, right_limit}

abbrev pub at : Lexeme → List Lexeme → List Error → ParserState
at prev rest errors = record { prev = prev; rest = rest; errors = errors }

pub bindp-symbol : (o : Operator) → bindp (symbol o) ≡ precedence o
unfolding bindp code
bindp-symbol Operator.and_ = refl
bindp-symbol Operator.or_ = refl
bindp-symbol Operator.eq = refl
bindp-symbol Operator.neq = refl
bindp-symbol Operator.gt = refl
bindp-symbol Operator.lt = refl
bindp-symbol Operator.geq = refl
bindp-symbol Operator.leq = refl
bindp-symbol Operator.in_ = refl
bindp-symbol Operator.append = refl
bindp-symbol Operator.cmp = refl
bindp-symbol Operator.add = refl
bindp-symbol Operator.sub = refl
bindp-symbol Operator.mul = refl
bindp-symbol Operator.div = refl
bindp-symbol Operator.mod_ = refl
bindp-symbol Operator.assign = refl
bindp-symbol Operator.add_assign = refl
bindp-symbol Operator.sub_assign = refl
bindp-symbol Operator.mul_assign = refl
bindp-symbol Operator.div_assign = refl
bindp-symbol Operator.mod_assign = refl
bindp-symbol Operator.append_assign = refl
bindp-symbol Operator.insert = refl
bindp-symbol Operator.comma = refl
bindp-symbol Operator.colon = refl

bind_assoc :
    {T U V : Type 0} (m : Outcome T) (f : T → Outcome U) (g : U → Outcome V)
    → Outcome.bind (Outcome.bind m f) g ≡ Outcome.bind m (λ t. Outcome.bind (f t) g)
bind_assoc (ok t) f g = refl
bind_assoc Outcome.fault f g = refl
bind_assoc Outcome.out_of_fuel f g = refl

pub bindp-close : bindp L.r_paren ≡ 0x10
unfolding bindp code
bindp-close = refl

module _ (ex : ℕ → P AstNode) where
  -- The loop ends at a lexeme that binds no more than it asks for.
  pub led_loop-end :
      (m bp : ℕ) (left : AstNode) (prev h : Lexeme) (rest : List Lexeme) (errors : List Error)
      → bindp h.type ≤ bp
      → 0 < m
      → led_loop ex m bp left (at prev (h ∷ rest) errors) ≡ ok (left, at prev (h ∷ rest) errors)
  unfolding led_loop current look
  led_loop-end zero bp left prev h rest errors b z = absurd (omega arith)
  led_loop-end (suc m) bp left prev h rest errors b z = rw (ltb-false bp (bindp h.type) b) refl

  led-symbol :
      (o : Operator) (p : Pos) (left : AstNode) (st : ParserState)
      → led ex (of_type (symbol o) p) left st
        ≡ Outcome.bind (ex (right_limit o) st) (λ r. ok (new_two (node o) left r.0 p, r.1))
  unfolding led left_assoc right_assoc binary_type right_assoc_type bindp code
  led-symbol Operator.and_ p left st = refl
  led-symbol Operator.or_ p left st = refl
  led-symbol Operator.eq p left st = refl
  led-symbol Operator.neq p left st = refl
  led-symbol Operator.gt p left st = refl
  led-symbol Operator.lt p left st = refl
  led-symbol Operator.geq p left st = refl
  led-symbol Operator.leq p left st = refl
  led-symbol Operator.in_ p left st = refl
  led-symbol Operator.append p left st = refl
  led-symbol Operator.cmp p left st = refl
  led-symbol Operator.add p left st = refl
  led-symbol Operator.sub p left st = refl
  led-symbol Operator.mul p left st = refl
  led-symbol Operator.div p left st = refl
  led-symbol Operator.mod_ p left st = refl
  led-symbol Operator.assign p left st = refl
  led-symbol Operator.add_assign p left st = refl
  led-symbol Operator.sub_assign p left st = refl
  led-symbol Operator.mul_assign p left st = refl
  led-symbol Operator.div_assign p left st = refl
  led-symbol Operator.mod_assign p left st = refl
  led-symbol Operator.append_assign p left st = refl
  led-symbol Operator.insert p left st = refl
  led-symbol Operator.comma p left st = refl
  led-symbol Operator.colon p left st = refl

  -- On an operator that binds more, the loop reads the right operand and goes on.
  pub led_loop-symbol :
      (m bp : ℕ) (o : Operator) (p : Pos) (left : AstNode) (prev : Lexeme) (rest : List Lexeme)
      (errors : List Error)
      → bp < precedence o
      → led_loop ex (suc m) bp left (at prev (of_type (symbol o) p ∷ rest) errors)
        ≡ Outcome.bind
            (ex (right_limit o) (at (of_type (symbol o) p) rest errors))
            (λ r. led_loop ex m bp (new_two (node o) left r.0 p) r.1)
  unfolding led_loop current look next advance
  led_loop-symbol m bp o p left prev rest errors b = rw (bindp-symbol o) (
      rw (ltb-true bp (precedence o) b) (
        rw (led-symbol o p left (at (of_type (symbol o) p) rest errors)) (
          bind_assoc {T = AstNode × ParserState} {U = AstNode × ParserState}
            (ex (right_limit o) (at (of_type (symbol o) p) rest errors))
            (λ x. ok (new_two (node o) left x.0 p, x.1)) (λ x. led_loop ex m bp x.0 x.1))))
