-- ===== src/SyntaxChecker/Sound.antt =====
-- `SyntaxChecker::validateSyntax` of libjarl/syntax_checker.cpp against the rules of
-- SyntaxChecker/Rules.antt, node by node.
use mathlib.Core.Path.{subst}
use jarl.Common.{sym, ℕ, ◌≡◌, refl, ap, Bool, true, false, List, arith}
use jarl.Common.Outcome.{Returns, returns, Returns-bind, Returns-map}
use jarl.Errors.{Error}
use jarl.Lexeme.{Payload}
use jarl.Ast.{AstNode, leaf, one, two, AstNodeType as A, Flags, code, arm_class}
use jarl.Ast.Shape.{IsWellFormed, error_nodes, error_weight}
use jarl.SyntaxChecker.Check.{C, ◌>>=◌, ◌>>◌, pure}
use jarl.SyntaxChecker.Expect.{expect_value, expect_l_value, expect_value_list}
use jarl.SyntaxChecker.Validate.{visit_leaf, visit_one, visit_two, validate, flags_if}
use jarl.SyntaxChecker.Rules.{
  kind, value_if, IsValue, IsLValue, IsIdentifier, IsWritten, annotate, OrNop, Entry, DemandsOne,
  DemandsTwo, rules, reads, IsChecked, IsDeterminate,
}
use jarl.SyntaxChecker.Parts.{each-Says, expect_value_nop-Says, expect_entry-Says}
use jarl.SyntaxChecker.Shapes.{
  visit_var-Gives, visit_assert-Gives, visit_for-Gives, visit_if-Gives, visit_index-Gives,
}
use jarl.SyntaxChecker.Steps.{
  Counts, Gives, Counts-both, pure-Gives, then-Gives, ends, is_value-Gives, flags-annotate,
  expect_value-Says, expect_l_value-Says, expect_identifier-Says,
}

visit_leaf-Gives :
    (t : A) (f : Flags) (p : ℕ × ℕ) (v : Payload)
    → IsWellFormed (leaf t f p v)
    → error_weight t ≡ 0
    → Gives (kind (leaf t f p v)) Unit (visit_leaf t f)
unfolding visit_leaf kind code
visit_leaf-Gives A.lex_error f p v wf e = absurd (omega arith)
visit_leaf-Gives A.parse_error f p v wf e = absurd (omega arith)
visit_leaf-Gives A.nop f p v wf e = pure-Gives _ tt
visit_leaf-Gives A.null f p v wf e = pure-Gives _ tt
visit_leaf-Gives A.int f p v wf e = pure-Gives _ tt
visit_leaf-Gives A.float f p v wf e = pure-Gives _ tt
visit_leaf-Gives A.bool f p v wf e = pure-Gives _ tt
visit_leaf-Gives A.string f p v wf e = pure-Gives _ tt
visit_leaf-Gives A.identifier f p v wf e = pure-Gives _ tt
visit_leaf-Gives _ f p v wf e = absurd wf

flags_value : (v : Bool) → flags_if v ≡ value_if v
flags_value true = refl
flags_value false = refl

visit_one-Gives :
    (t : A) (f : Flags) (p : ℕ × ℕ) (c : AstNode)
    → IsWellFormed (one t f p c)
    → DemandsOne reads t c
    → Gives (kind (one t f p c)) (DemandsOne rules t c) (visit_one t f (annotate c))
unfolding visit_one kind code arm_class expect_value_list
visit_one-Gives A.neg f p c wf w = ends Flags.value (expect_value-Says c w)
visit_one-Gives A.not_ f p c wf w = ends Flags.value (expect_value-Says c w)
visit_one-Gives A.move f p c wf w = ends Flags.value (expect_l_value-Says c w)
visit_one-Gives A.code_block f p c wf w =
    rw flags-annotate (is_value-Gives (kind c) _ w (rw flags_value (pure-Gives _ tt)))
visit_one-Gives A.array f p c wf w =
    ends Flags.value (each-Says _ (OrNop reads) (OrNop rules) c expect_value_nop-Says wf.2 w)
visit_one-Gives A.table f p c wf w =
    ends Flags.value (each-Says _ (Entry reads) (Entry rules) c expect_entry-Says wf.2 w)
visit_one-Gives A.recurse f p c wf w =
    ends Flags.value (each-Says _ IsWritten IsValue c (λ n _. expect_value-Says n) wf.2 w)
visit_one-Gives A.print f p c wf w =
    ends Flags.none (each-Says _ IsWritten IsValue c (λ n _. expect_value-Says n) wf.2 w)
visit_one-Gives A.return f p c wf w = ends Flags.none (expect_value_nop-Says c wf.2 w)
visit_one-Gives A.var f p c wf w = visit_var-Gives f c wf.2 w
visit_one-Gives A.assert f p c wf w = visit_assert-Gives f c wf.2 w
visit_one-Gives _ f p c wf w = absurd (omega arith)

values-Gives :
    (f : Flags) (a b : AstNode)
    → IsWritten a × IsWritten b
    → Gives f
        (IsValue a × IsValue b)
        (expect_value (annotate a) >> (expect_value (annotate b) >> pure f))
values-Gives f a b w = then-Gives (expect_value-Says a w.0) (ends f (expect_value-Says b w.1))

assigned-Gives :
    (a b : AstNode)
    → IsWritten a × IsWritten b
    → Gives Flags.none
        (IsLValue a × IsValue b)
        (expect_l_value (annotate a) >> (expect_value (annotate b) >> pure Flags.none))
assigned-Gives a b w =
    then-Gives (expect_l_value-Says a w.0) (ends Flags.none (expect_value-Says b w.1))

visit_two-Gives :
    (t : A) (f : Flags) (p : ℕ × ℕ) (a b : AstNode)
    → IsWellFormed (two t f p a b)
    → DemandsTwo reads t a b
    → Gives
        (kind (two t f p a b))
        (DemandsTwo rules t a b)
        (visit_two t f (annotate a) (annotate b))
unfolding visit_two kind code arm_class expect_value_list
visit_two-Gives A.seq f p a b wf w =
    rw flags-annotate (is_value-Gives (kind b) _ w (rw flags_value (pure-Gives _ tt)))
visit_two-Gives A.else_ f p a b wf w = pure-Gives f tt
visit_two-Gives A.expr_list f p a b wf w = pure-Gives f tt
visit_two-Gives A.key_value_pair f p a b wf w = pure-Gives f tt
visit_two-Gives A.then_ f p a b wf w = pure-Gives f tt
visit_two-Gives A.if_ f p a b wf w = visit_if-Gives f p a b wf.3 w.0 w.1
visit_two-Gives A.index f p a b wf w = visit_index-Gives a b wf.3 w.0 w.1
visit_two-Gives A.call f p a b wf w =
    then-Gives (expect_value-Says a w.0)
      (ends Flags.value (each-Says _ IsWritten IsValue b (λ n _. expect_value-Says n) wf.3 w.1))
visit_two-Gives A.function f p a b wf w =
    ends Flags.value
      (each-Says _ (λ _. Unit {0}) IsIdentifier a (λ n _ _. expect_identifier-Says n) wf.2 w)
visit_two-Gives A.while f p a b wf w = ends Flags.none (expect_value-Says a w)
visit_two-Gives A.for f p a b wf w = visit_for-Gives f a wf.2 w
visit_two-Gives A.assign f p a b wf w = assigned-Gives a b w
visit_two-Gives A.add_assign f p a b wf w = assigned-Gives a b w
visit_two-Gives A.sub_assign f p a b wf w = assigned-Gives a b w
visit_two-Gives A.mul_assign f p a b wf w = assigned-Gives a b w
visit_two-Gives A.div_assign f p a b wf w = assigned-Gives a b w
visit_two-Gives A.mod_assign f p a b wf w = assigned-Gives a b w
visit_two-Gives A.append_assign f p a b wf w = assigned-Gives a b w
visit_two-Gives A.insert f p a b wf w = assigned-Gives a b w
visit_two-Gives A.add f p a b wf w = values-Gives Flags.value a b w
visit_two-Gives A.sub f p a b wf w = values-Gives Flags.value a b w
visit_two-Gives A.mul f p a b wf w = values-Gives Flags.value a b w
visit_two-Gives A.div f p a b wf w = values-Gives Flags.value a b w
visit_two-Gives A.mod_ f p a b wf w = values-Gives Flags.value a b w
visit_two-Gives A.append f p a b wf w = values-Gives Flags.value a b w
visit_two-Gives A.cmp f p a b wf w = values-Gives Flags.value a b w
visit_two-Gives A.eq f p a b wf w = values-Gives Flags.value a b w
visit_two-Gives A.neq f p a b wf w = values-Gives Flags.value a b w
visit_two-Gives A.gt f p a b wf w = values-Gives Flags.value a b w
visit_two-Gives A.lt f p a b wf w = values-Gives Flags.value a b w
visit_two-Gives A.geq f p a b wf w = values-Gives Flags.value a b w
visit_two-Gives A.leq f p a b wf w = values-Gives Flags.value a b w
visit_two-Gives A.in_ f p a b wf w = values-Gives Flags.value a b w
visit_two-Gives A.apply f p a b wf w = values-Gives Flags.value a b w
visit_two-Gives A.and_ f p a b wf w = values-Gives Flags.value a b w
visit_two-Gives A.or_ f p a b wf w = values-Gives Flags.value a b w
visit_two-Gives _ f p a b wf w = absurd (omega arith)

-- A value, and then the rest, which the value decides.
after-Gives :
    {T U : Type 0} {Q R : Type 0} {t : T} {u : U} {m : C T} (k : T → C U)
    → Gives t Q m
    → Gives u R (k t)
    → Gives u (Q × R) (m >>= k)
after-Gives {R = R} {u = u} k a b errs = Returns-bind (a errs) λ r p.
    Returns-map
      (subst (λ x. Returns (λ s. (s.0 ≡ u) × Counts R r.1 s.1) (k x r.1)) (sym p.0) (b r.1))
      λ s q. (q.0, Counts-both p.1 q.1)

value_ends :
    {T U : Type 0} {Q : Type 0} {t : T} {m : C T} (g : T → U)
    → Gives t Q m
    → Gives (g t) Q (m >>= λ x. pure (g x))
value_ends g a errs = Returns-bind (a errs) λ r p. returns (ap g p.0, p.1)

validate-Gives :
    (n : AstNode)
    → IsWellFormed n
    → error_nodes n ≡ 0
    → IsDeterminate n
    → Gives (annotate n) (IsChecked n) (validate n)
unfolding validate annotate error_nodes
validate-Gives (leaf t f p v) wf e d = value_ends _ (visit_leaf-Gives t f p v wf e)
validate-Gives (one t f p c) wf e d =
    after-Gives _ (validate-Gives c wf.2 (omega arith) d.0)
      (value_ends (λ f'. one t f' p (annotate c)) (visit_one-Gives t f p c wf d.1))
validate-Gives (two t f p a b) wf e d = after-Gives _ (validate-Gives a wf.2 (omega arith) d.0) (
    after-Gives _ (validate-Gives b wf.3 (omega arith) d.1.0) (
      value_ends (λ f'. two t f' p (annotate a) (annotate b)) (visit_two-Gives t f p a b wf d.1.1)))

-- On a well-formed tree without error nodes, in which the checker finds written flags wherever it
-- looks at flags, `validateSyntax` returns: the tree keeps its shape and its values and each node
-- has the flags that the rules give it; no error is lost from the list; and none is added exactly
-- when every node's demands on its children are met.
pub validate_sound :
    (n : AstNode) (errs : List Error)
    → IsWellFormed n
    → error_nodes n ≡ 0
    → IsDeterminate n
    → Returns (λ r. (r.0 ≡ annotate n) × Counts (IsChecked n) errs r.1) (validate n errs)
validate_sound n errs wf e d = validate-Gives n wf e d errs
