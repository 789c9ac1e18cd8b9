-- ===== src/Correct/Expr.antt =====
-- Expressions of the language with their meaning, independent of code and stack; the trees that
-- stand for them; and the words that libjarl/code_generator.cpp emits for them.
use jarl.Common.{
  ℕ, ◌+◌, ◌<◌, ◌≡◌, Bool, true, false, List, [], ◌∷◌, ◌++◌, Option, none, some, if◌then◌else◌, pos,
}
use jarl.Lexeme.{Bytes, Pos, Payload, int_value, bool_value, string_value}
use jarl.Ast.{AstNode, leaf, one, two, AstNodeType as A, Flags}
use jarl.Value.Data.{TypedValue, bool, int, string, Result, ok, undefined, FloatOps}
use jarl.Value.Arith
use jarl.Value.Compare
use jarl.Value.Compare.{CmpMode}
use jarl.Value.Convert.{Scanner, bind, test_bool, bool_not}
use jarl.Vm.Operations.{same}

pub data Unary : Type 0 where
  neg not_ : Unary

pub data Binary : Type 0 where
  add sub mul div mod_ order : Binary
  compare : CmpMode → Binary

-- `logic false` is `and`, which stops at a false operand, and `logic true` is `or`.
pub data Expr : Type 0 where
  null : Expr
  truth : Bool → Expr
  number : ℕ → Expr
  text name : Bytes → Expr
  unary : Unary → Expr → Expr
  binary : Binary → Expr → Expr → Expr
  logic : Bool → Expr → Expr → Expr
  choose : Expr → Expr → Expr → Expr

abbrev pub Env : Type 0
Env = Bytes → Option TypedValue

module _ (ops : FloatOps) (scanner : Scanner) where
  unfoldable pub unary_of : Unary → TypedValue → Result TypedValue
  unary_of Unary.neg = Arith.neg ops
  unary_of Unary.not_ = bool_not ops scanner

  unfoldable pub binary_of : Binary → TypedValue → TypedValue → Result TypedValue
  binary_of Binary.add = Arith.add ops
  binary_of Binary.sub = Arith.sub ops
  binary_of Binary.mul = Arith.mul ops
  binary_of Binary.div = Arith.div ops
  binary_of Binary.mod_ = Arith.modulo ops
  binary_of Binary.order = Compare.cmp ops
  binary_of (Binary.compare m) = Compare.cmp_mode ops m

  -- The value of an expression: operands from the left, and only the branch that is taken.
  unfoldable pub eval : Env → Expr → Result TypedValue
  unfolding unary_of binary_of
  eval env Expr.null = ok TypedValue.null
  eval env (truth b) = ok (bool b)
  eval env (number n) = ok (int (pos n))
  eval env (text s) = ok (string s)
  eval env (name x) = elim (env x) [ none ↦ undefined | some v ↦ ok v ]
  eval env (unary u e) = bind (eval env e) (unary_of u)
  eval env (binary o a b) = bind (eval env a) (λ v. bind (eval env b) (λ w. binary_of o v w))
  eval env (logic stop a b) =
      let rest = eval env b in
      bind (eval env a)
        (λ v. bind (test_bool ops scanner v) (λ t. if same t stop then ok (bool t) else rest))
  eval env (choose c a b) =
      let x = eval env a in
      let y = eval env b in
      bind (eval env c) (λ v. bind (test_bool ops scanner v) (λ t. if t then x else y))

abbrev pub unary_type : Unary → A
unary_type Unary.neg = A.neg
unary_type Unary.not_ = A.not_

abbrev pub binary_type : Binary → A
binary_type Binary.add = A.add
binary_type Binary.sub = A.sub
binary_type Binary.mul = A.mul
binary_type Binary.div = A.div
binary_type Binary.mod_ = A.mod_
binary_type Binary.order = A.cmp
binary_type (Binary.compare CmpMode.equal) = A.eq
binary_type (Binary.compare CmpMode.not_equal) = A.neq
binary_type (Binary.compare CmpMode.greater) = A.gt
binary_type (Binary.compare CmpMode.less) = A.lt
binary_type (Binary.compare CmpMode.greater_equal) = A.geq
binary_type (Binary.compare CmpMode.less_equal) = A.leq

abbrev pub logic_type : Bool → A
logic_type false = A.and_
logic_type true = A.or_

-- The trees for an expression, with any places, and with any flags but for those of an `if`.
pub data Represents : Expr → AstNode → Type 0 where
  null : {f : Flags} {p : Pos} {v : Payload} → Represents Expr.null (leaf A.null f p v)
  truth :
      {f : Flags} {p : Pos} (b : Bool) → Represents (Expr.truth b) (leaf A.bool f p (bool_value b))
  number :
      {f : Flags} {p : Pos} (n : ℕ)
      → Represents (Expr.number n) (leaf A.int f p (int_value (pos n)))
  text :
      {f : Flags} {p : Pos} (s : Bytes)
      → Represents (Expr.text s) (leaf A.string f p (string_value s))
  name :
      {f : Flags} {p : Pos} (x : Bytes)
      → Represents (Expr.name x) (leaf A.identifier f p (string_value x))
  unary :
      {f : Flags} {p : Pos} {e : Expr} {n : AstNode} (u : Unary)
      → Represents e n
      → Represents (Expr.unary u e) (one (unary_type u) f p n)
  binary :
      {f : Flags} {p : Pos} {a b : Expr} {m n : AstNode} (o : Binary)
      → Represents a m
      → Represents b n
      → Represents (Expr.binary o a b) (two (binary_type o) f p m n)
  logic :
      {f : Flags} {p : Pos} {a b : Expr} {m n : AstNode} (stop : Bool)
      → Represents a m
      → Represents b n
      → Represents (Expr.logic stop a b) (two (logic_type stop) f p m n)
  choose :
      {f : Flags} {p q : Pos} {c a b : Expr} {l m n : AstNode}
      → Represents c l
      → Represents a m
      → Represents b n
      → Represents (Expr.choose c a b) (two A.if_ Flags.value p l (two A.else_ f q m n))

-- The number of words of its code.
unfoldable pub size : Expr → ℕ
size Expr.null = 1
size (truth b) = 1
size (number n) = 2
size (text s) = 2
size (name x) = 2
size (unary u e) = size e + 1
size (binary o a b) = size a + size b + 1
size (logic stop a b) = size a + size b + 2
size (choose c a b) = size c + size a + size b + 4

abbrev pub truth_word : Bool → ℕ
truth_word true = 3
truth_word false = 4

abbrev pub unary_word : Unary → ℕ
unary_word Unary.neg = 15
unary_word Unary.not_ = 16

abbrev pub binary_word : Binary → ℕ
binary_word Binary.add = 8
binary_word Binary.sub = 9
binary_word Binary.mul = 10
binary_word Binary.div = 11
binary_word Binary.mod_ = 12
binary_word Binary.order = 18
binary_word (Binary.compare CmpMode.equal) = 19
binary_word (Binary.compare CmpMode.not_equal) = 20
binary_word (Binary.compare CmpMode.greater) = 21
binary_word (Binary.compare CmpMode.less) = 22
binary_word (Binary.compare CmpMode.greater_equal) = 23
binary_word (Binary.compare CmpMode.less_equal) = 24

abbrev pub logic_word : Bool → ℕ
logic_word false = 0x8026
logic_word true = 0x8025

-- The words for an expression from an address on, where `P` says which operands of a `Push` stand
-- for which expressions.
pub data Emits (P : Expr → ℕ → Type 0) : Expr → ℕ → List ℕ → Type 0 where
  null : {i : ℕ} → Emits P Expr.null i (2 ∷ [])
  truth : {i : ℕ} (b : Bool) → Emits P (Expr.truth b) i (truth_word b ∷ [])
  inline : {i n : ℕ} → n < 0x8000 → Emits P (number n) i (0x9002 ∷ n ∷ [])
  operand : {i w : ℕ} {e : Expr} → size e ≡ 2 → P e w → Emits P e i (0x8002 ∷ w ∷ [])
  unary :
      {i : ℕ} {e : Expr} {ws : List ℕ} (u : Unary)
      → Emits P e i ws
      → Emits P (Expr.unary u e) i (ws ++ (unary_word u ∷ []))
  binary :
      {i : ℕ} {a b : Expr} {ws vs : List ℕ} (o : Binary)
      → Emits P a i ws
      → Emits P b (i + size a) vs
      → Emits P (Expr.binary o a b) i (ws ++ (vs ++ (binary_word o ∷ [])))
  logic :
      {i : ℕ} {a b : Expr} {ws vs : List ℕ} (stop : Bool)
      → Emits P a i ws
      → Emits P b (i + size a + 2) vs
      → Emits P (Expr.logic stop a b) i (ws ++ (logic_word stop ∷ (i + size a + 2 + size b) ∷ vs))
  choose :
      {i : ℕ} {c a b : Expr} {ws vs us : List ℕ}
      → Emits P c i ws
      → Emits P a (i + size c + 2) vs
      → Emits P b (i + size c + 2 + size a + 2) us
      → Emits P (Expr.choose c a b) i (
          ws
          ++ (0x8024
              ∷ (i + size c + 2 + size a + 2)
              ∷ (vs ++ (0x8022 ∷ (i + size c + 2 + size a + 2 + size b) ∷ us))))
