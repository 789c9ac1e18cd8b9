-- ===== src/Parser/RoundTrip.antt =====
-- `Parser::parse` of libjarl/parser.cpp on printed terms of the grammar.
use jarl.Common.{
  ℕ, suc, ◌-◌, ◌≡◌, ◌≤◌, ◌<◌, refl, false, List, [], ◌∷◌, ◌++◌, ltb, leb, Bool-cases, inl, inr,
  leb→le, ltb→lt, length, length-push, arith,
}
use jarl.Common.Outcome.{ok}
use jarl.Errors.{Error}
use jarl.Lexeme.{Lexeme, LexemeType as L, Pos, code, of_type}
use jarl.Ast.{AstNode}
use jarl.Parser.State.{bindp}
use jarl.Parser.Climb.{parse}
use jarl.Parser.Grammar.{
  Operator, symbol, Term, number, name, infix_, postfix, precedence, right_limit, level, limit,
  enclose, print, tree,
}
use jarl.Parser.Operands.{
  Reads, Reads-end, number-Reads, name-Reads, paren-Reads, infix-Reads, bracket-Reads,
}

precedence_bounds : (o : Operator) → (0x50 ≤ precedence o) × (precedence o ≤ 0xc0)
precedence_bounds o = ground arith

right_limit_bounds :
    (o : Operator) → (right_limit o ≤ precedence o) × (precedence o ≤ suc (right_limit o))
right_limit_bounds o = let b = precedence_bounds o in ground arith

level_bounds :
    (t : Term)
    → (0x50 ≤ level t) × (0x10 ≤ limit t) × (limit t ≤ level t) × (level t ≤ suc (limit t))
level_bounds (number i p) = omega arith
level_bounds (name x p) = omega arith
level_bounds (postfix k p a b) = omega arith
level_bounds (infix_ o p a b) =
    let r = right_limit_bounds o in let b = precedence_bounds o in omega arith

pub bindp-end : bindp L.end ≡ 0
unfolding bindp code
bindp-end = refl

-- An operand as it is printed: read as its tree by whoever asks for no more than `v`, and followed
-- by what binds no more than `x`.
pub record Operand (ls : List Lexeme) (t : AstNode) (asked followed : ℕ) : Type 0 where
  pub v : ℕ
  pub x : ℕ
  pub reads : Reads ls t v x
  pub asks : asked < v
  pub follows : followed ≤ x

paren-Operand :
    (t : Term) (asked followed : ℕ)
    → Reads (print t) (tree t) (level t) (limit t)
    → asked < 0xd0
    → followed ≤ 0xe0
    → Operand (enclose false (print t)) (tree t) asked followed
paren-Operand t asked followed r a f =
    let b = level_bounds t in
    record {
      v = 0xd0;
      x = 0xe0;
      reads = paren-Reads (print t) (tree t) (level t) (limit t) r (omega arith) (omega arith);
      asks = omega arith;
      follows = omega arith;
    }

pub left-Operand :
    (c : ℕ) (t : Term)
    → Reads (print t) (tree t) (level t) (limit t)
    → 0x50 ≤ c
    → c ≤ 0xd0
    → Operand (enclose (leb c (limit t)) (print t)) (tree t) (c - 1) c
left-Operand c t r low high = elim (Bool-cases (leb c (limit t))) [
  | inl e ↦
      let f = leb→le c (limit t) e in
      let b = level_bounds t in
      rw e (record { v = level t; x = limit t; reads = r; asks = omega arith; follows = f })
  | inr e ↦ rw e (paren-Operand t (c - 1) c r (omega arith) (omega arith))
]

pub right-Operand :
    (o : Operator) (t : Term)
    → Reads (print t) (tree t) (level t) (limit t)
    → Operand
        (enclose (ltb (right_limit o) (level t)) (print t))
        (tree t)
        (right_limit o)
        (right_limit o)
right-Operand o t r = elim (Bool-cases (ltb (right_limit o) (level t))) [
  | inl e ↦
      let f = ltb→lt (right_limit o) (level t) e in
      let b = level_bounds t in
      rw e (record { v = level t; x = limit t; reads = r; asks = f; follows = omega arith })
  | inr e ↦
      let c = precedence_bounds o in
      let d = right_limit_bounds o in
      rw e (paren-Operand t (right_limit o) (right_limit o) r (omega arith) (omega arith))
]

Operands-Reads :
    (o : Operator) (p : Pos) (la lb : List Lexeme) (a b : Term)
    → Operand la (tree a) (precedence o - 1) (precedence o)
    → Operand lb (tree b) (right_limit o) (right_limit o)
    → Reads
        (la ++ (of_type (symbol o) p ∷ lb))
        (tree (infix_ o p a b))
        (precedence o)
        (right_limit o)
unfolding tree
Operands-Reads o p la lb a b f g =
    infix-Reads o p la lb (tree a) (tree b) f.v f.x g.v g.x f.reads g.reads (omega (arith, f.asks))
      f.follows g.asks g.follows

pub term-Reads : (t : Term) → Reads (print t) (tree t) (level t) (limit t)
unfolding print tree
term-Reads (number i p) = number-Reads i p
term-Reads (name x p) = name-Reads x p
term-Reads (infix_ o p a b) =
    let c = precedence_bounds o in
    Operands-Reads o p (enclose (leb (precedence o) (limit a)) (print a))
      (enclose (ltb (right_limit o) (level b)) (print b)) a b
      (left-Operand (precedence o) a (term-Reads a) (omega arith) (omega arith))
      (right-Operand o b (term-Reads b))
term-Reads (postfix k p a b) =
    let f = left-Operand 0xd0 a (term-Reads a) (omega arith) (omega arith) in
    let c = level_bounds b in
    bracket-Reads k p (enclose (leb 0xd0 (limit a)) (print a)) (print b) (tree a) (tree b) f.v f.x
      (level b) (limit b) f.reads (term-Reads b) (omega (arith, f.asks)) f.follows (omega arith)
      (omega arith)

-- Every term of numbers, names, infix operators, calls and indices, printed with no more
-- parentheses than the operators' precedence and grouping ask for and followed by `End`, is parsed
-- as its own tree, with no error.
pub parse-print :
    (t : Term) (first : Lexeme) (p : Pos) (errors : List Error)
    → parse (first ∷ (print t ++ (of_type L.end p ∷ []))) errors ≡ ok (tree t, errors)
unfolding parse
parse-print t first p errors =
    let b = level_bounds t in
    let (before, e) =
      Reads-end (print t) (tree t) (level t) (limit t) (term-Reads t) (length (print t)) 0x11
        (of_type L.end p) [] first errors (omega arith) (omega (arith, bindp-end))
        (omega (arith, bindp-end)) (omega (arith, length-push (print t) (of_type L.end p))) in
    rw (length-push (print t) (of_type L.end p)) (rw e refl)
