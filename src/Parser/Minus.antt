-- ===== src/Parser/Minus.antt =====
-- `Parser::expression_` of libjarl/parser.cpp on a unary minus where an operand of a product is
-- expected.
use mathlib.Core.List.{append_assoc}
use jarl.Common.{
  ◌+◌, ℕ, suc, ◌≤◌, ◌<◌, ◌≡◌, refl, ◌∙◌, List, [], ◌∷◌, ◌++◌, ltb, leb, ltb-true, length,
  length-append, arith,
}
use jarl.Common.Outcome.{ok}
use jarl.Errors.{Error}
use jarl.Lexeme.{Lexeme, LexemeType as L, Pos, code, of_type}
use jarl.Ast.{AstNode, AstNodeType as A, new, new_two}
use jarl.Parser.State.{bindp, current, look}
use jarl.Parser.Climb.{expression, expression_body, parse}
use jarl.Parser.Grammar.{
  Operator, symbol, node, Term, precedence, right_limit, level, limit, enclose, print, tree,
}
use jarl.Parser.Climbing.{at, bindp-symbol, led_loop-end}
use jarl.Parser.Operands.{Reads-end, infix-step}
use jarl.Parser.RoundTrip.{left-Operand, right-Operand, term-Reads, bindp-end}

pub data IsProduct : Operator → Type 0 where
  mul : IsProduct Operator.mul
  div : IsProduct Operator.div
  mod_ : IsProduct Operator.mod_

-- The operands as they are printed on the two sides of a product's sign and of a minus.
abbrev pub factor : Term → List Lexeme
factor a = enclose (leb 0xc0 (limit a)) (print a)

abbrev pub summand : Term → List Lexeme
summand b = enclose (ltb 0xb0 (level b)) (print b)

-- The lexemes of `a o -b`.
abbrev pub product_minus : Operator → Pos → Pos → Term → Term → List Lexeme
product_minus o q r a b = factor a ++ (of_type (symbol o) q ∷ of_type L.minus r ∷ summand b)

-- The difference of `a` times nothing and `b`.
abbrev pub minus_of_product : Operator → Pos → Pos → Term → Term → AstNode
minus_of_product o q r a b = new_two A.sub (new_two (node o) (tree a) (new A.nop r) q) (tree b) r

no_operand :
    (n bp : ℕ) (prev : Lexeme) (r : Pos) (l : List Lexeme) (errors : List Error)
    → 0xb0 < bp
    → expression (suc n) bp (at prev (of_type L.minus r ∷ l) errors)
      ≡ ok (new A.nop r, at prev (of_type L.minus r ∷ l) errors)
unfolding expression expression_body current look bindp code
no_operand n bp prev r l errors b = rw (ltb-true 0xb0 bp b) refl

IsProduct-bounds : {o : Operator} → IsProduct o → (precedence o ≡ 0xc0) × (right_limit o ≡ 0xc0)
IsProduct-bounds mul = (refl, refl)
IsProduct-bounds div = (refl, refl)
IsProduct-bounds mod_ = (refl, refl)

-- Up to a lexeme that binds no more than the minus and no more than is asked for.
expression-product_minus :
    (o : Operator) (q r : Pos) (a b : Term) (n bp : ℕ) (prev h : Lexeme) (rest : List Lexeme)
    (errors : List Error)
    → IsProduct o
    → bp < 0xb0
    → bindp h.type ≤ 0xb0
    → bindp h.type ≤ bp
    → length (factor a ++ (of_type (symbol o) q ∷ of_type L.minus r ∷ (summand b ++ (h ∷ rest))))
      ≤ suc (suc n)
    → (before : Lexeme) × (expression (suc (suc n)) bp (
          at prev
            (factor a ++ (of_type (symbol o) q ∷ of_type L.minus r ∷ (summand b ++ (h ∷ rest))))
            errors)
        ≡ ok (minus_of_product o q r a b, at before (h ∷ rest) errors))
expression-product_minus o q r a b n bp prev h rest errors product below stops ends size =
    let op : Lexeme = of_type (symbol o) q in
    let minus : Lexeme = of_type L.minus r in
    let tail : List Lexeme = summand b ++ (h ∷ rest) in
    let bounds = IsProduct-bounds product in
    let f = left-Operand 0xc0 a (term-Reads a) (omega arith) (omega arith) in
    let g = right-Operand Operator.sub b (term-Reads b) in
    let whole = length-append (factor a) (op ∷ minus ∷ tail) in
    let part = length-append (summand b) (h ∷ rest) in
    let left =
      f.reads (suc n) bp op (minus ∷ tail) prev errors (omega (arith, f.asks))
        (omega (arith, f.follows, bindp-symbol o)) size in
    let (k, enough, first) =
      infix-step (suc n) bp left.fuel o q (tree a) (new A.nop r) op minus (minus ∷ tail) tail errors
        (omega arith) (omega (arith, left.enough)) left.before
        (no_operand n (right_limit o) op r tail errors (omega arith)) in
    let (last, read) =
      Reads-end (summand b) (tree b) g.v g.x g.reads n 0xb0 h rest minus errors g.asks
        (omega (arith, g.follows)) stops (omega arith) in
    let (m, fuel, second) =
      infix-step (suc n) bp k Operator.sub r (new_two (node o) (tree a) (new A.nop r) q) (tree b)
        last h tail rest errors below (omega arith) op read in
    (
      last,
      left.same
          ∙ first
          ∙ second
          ∙ led_loop-end (expression (suc n)) m bp (minus_of_product o q r a b) last h rest errors
              ends (omega arith),
    )

-- After the sign of a product, a unary minus is not taken as the start of the operand: whatever the
-- operands `a` and `b`, printed with no more parentheses than they need there, `a * -b` is read,
-- without an error, as the difference of `a` times nothing and `b`, and the same of `/` and `%`.
pub parse-product_minus :
    (o : Operator) (q r : Pos) (a b : Term) (first : Lexeme) (p : Pos) (errors : List Error)
    → IsProduct o
    → parse (first ∷ (product_minus o q r a b ++ (of_type L.end p ∷ []))) errors
      ≡ ok (minus_of_product o q r a b, errors)
unfolding parse
parse-product_minus o q r a b first p errors product =
    let op : Lexeme = of_type (symbol o) q in
    let minus : Lexeme = of_type L.minus r in
    let close : List Lexeme = of_type L.end p ∷ [] in
    let n = length (factor a) + length (summand b) + 1 in
    let regrouped = append_assoc (factor a) (op ∷ minus ∷ summand b) close in
    let size : length (factor a ++ (op ∷ minus ∷ (summand b ++ close))) ≡ suc (suc n) = omega (
      arith,
      length-append (factor a) (op ∷ minus ∷ (summand b ++ close)),
      length-append (summand b) close,
    ) in
    let (before, e) =
      expression-product_minus o q r a b n 0x11 first (of_type L.end p) [] errors product
        (omega arith) (omega (arith, bindp-end)) (omega (arith, bindp-end)) (omega arith) in
    rw (regrouped, size, e) refl
