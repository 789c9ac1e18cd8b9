-- ===== src/Parser/Grammar.antt =====
-- The reference grammar of expressions, as the language means it: the operators with their
-- precedence, and terms, written with no parentheses that the precedence makes unnecessary. It does
-- not depend on libjarl/parser.cpp.
use jarl.Common.{ℕ, ◌-◌, Bool, true, false, List, [], ◌∷◌, ◌++◌, ltb, leb, if◌then◌else◌, ℤ}
use jarl.Lexeme.{
  Lexeme, LexemeType as L, Bytes, Pos, of_type, of_int, of_name, int_value, string_value,
}
use jarl.Ast.{AstNode, AstNodeType as A, new_value, new_two}

pub data Operator : Type 0 where
  and_ or_ eq neq gt lt geq leq in_ append cmp add sub mul div mod_ : Operator
  assign add_assign sub_assign mul_assign div_assign mod_assign append_assign insert : Operator
  comma colon : Operator

abbrev pub symbol : Operator → L
symbol Operator.and_ = L.and_
symbol Operator.or_ = L.or_
symbol Operator.eq = L.eq
symbol Operator.neq = L.neq
symbol Operator.gt = L.gt
symbol Operator.lt = L.lt
symbol Operator.geq = L.geq
symbol Operator.leq = L.leq
symbol Operator.in_ = L.in_
symbol Operator.append = L.append
symbol Operator.cmp = L.cmp
symbol Operator.add = L.plus
symbol Operator.sub = L.minus
symbol Operator.mul = L.mul
symbol Operator.div = L.div
symbol Operator.mod_ = L.mod_
symbol Operator.assign = L.assign
symbol Operator.add_assign = L.add_assign
symbol Operator.sub_assign = L.sub_assign
symbol Operator.mul_assign = L.mul_assign
symbol Operator.div_assign = L.div_assign
symbol Operator.mod_assign = L.mod_assign
symbol Operator.append_assign = L.append_assign
symbol Operator.insert = L.insert
symbol Operator.comma = L.comma
symbol Operator.colon = L.colon

abbrev pub node : Operator → A
node Operator.and_ = A.and_
node Operator.or_ = A.or_
node Operator.eq = A.eq
node Operator.neq = A.neq
node Operator.gt = A.gt
node Operator.lt = A.lt
node Operator.geq = A.geq
node Operator.leq = A.leq
node Operator.in_ = A.in_
node Operator.append = A.append
node Operator.cmp = A.cmp
node Operator.add = A.add
node Operator.sub = A.sub
node Operator.mul = A.mul
node Operator.div = A.div
node Operator.mod_ = A.mod_
node Operator.assign = A.assign
node Operator.add_assign = A.add_assign
node Operator.sub_assign = A.sub_assign
node Operator.mul_assign = A.mul_assign
node Operator.div_assign = A.div_assign
node Operator.mod_assign = A.mod_assign
node Operator.append_assign = A.append_assign
node Operator.insert = A.insert
node Operator.comma = A.expr_list
node Operator.colon = A.key_value_pair

-- From the comma, which binds least, to the products.
abbrev pub precedence : Operator → ℕ
precedence Operator.comma = 0x50
precedence Operator.and_ = 0x70
precedence Operator.or_ = 0x70
precedence Operator.eq = 0x80
precedence Operator.neq = 0x80
precedence Operator.gt = 0x80
precedence Operator.lt = 0x80
precedence Operator.geq = 0x80
precedence Operator.leq = 0x80
precedence Operator.in_ = 0x80
precedence Operator.append = 0x90
precedence Operator.cmp = 0xa0
precedence Operator.add = 0xb0
precedence Operator.sub = 0xb0
precedence Operator.mul = 0xc0
precedence Operator.div = 0xc0
precedence Operator.mod_ = 0xc0
precedence _ = 0x60

-- Assignments, pairs and lists group to the right, the others to the left.
abbrev pub groups_right : Operator → Bool
groups_right o = ltb (precedence o) 0x70

-- The greatest precedence of an operator that may follow the right operand without being taken
-- into it.
abbrev pub right_limit : Operator → ℕ
right_limit o = if groups_right o then precedence o - 1 else precedence o

-- What may follow a term in brackets: the arguments of a call, or an index.
pub data Bracket : Type 0 where
  call index : Bracket

abbrev pub opening : Bracket → L
opening Bracket.call = L.l_paren
opening Bracket.index = L.l_bracket

abbrev pub closing : Bracket → L
closing Bracket.call = L.r_paren
closing Bracket.index = L.r_bracket

abbrev pub bracket_node : Bracket → A
bracket_node Bracket.call = A.call
bracket_node Bracket.index = A.index

pub data Term : Type 0 where
  number : ℤ → Pos → Term
  name : Bytes → Pos → Term
  infix_ : Operator → Pos → Term → Term → Term
  postfix : Bracket → Pos → Term → Term → Term

abbrev pub level : Term → ℕ
level (infix_ o _ _ _) = precedence o
level (postfix _ _ _ _) = 0xd0
level _ = 0xe0

abbrev pub limit : Term → ℕ
limit (infix_ o _ _ _) = right_limit o
limit (postfix _ _ _ _) = 0xd0
limit _ = 0xe0

abbrev pub enclose : Bool → List Lexeme → List Lexeme
enclose true ls = ls
enclose false ls = of_type L.l_paren (0, 0) ∷ (ls ++ (of_type L.r_paren (0, 0) ∷ []))

abbrev pub bracketed : Bracket → Pos → List Lexeme → List Lexeme
bracketed k p ls = of_type (opening k) p ∷ ls ++ of_type (closing k) (0, 0) ∷ []

-- A term as lexemes, with parentheses around an operand only where it would be read differently.
unfoldable pub print : Term → List Lexeme
print (number i p) = of_int i p ∷ []
print (name s p) = of_name L.identifier s p ∷ []
print (infix_ o p a b) =
    enclose (leb (precedence o) (limit a)) (print a)
    ++ (of_type (symbol o) p ∷ enclose (ltb (right_limit o) (level b)) (print b))
print (postfix k p a b) = enclose (leb 0xd0 (limit a)) (print a) ++ bracketed k p (print b)

unfoldable pub tree : Term → AstNode
tree (number i p) = new_value A.int (int_value i) p
tree (name s p) = new_value A.identifier (string_value s) p
tree (infix_ o p a b) = new_two (node o) (tree a) (tree b) p
tree (postfix k p a b) = new_two (bracket_node k) (tree a) (tree b) p
