-- ===== src/SyntaxChecker/Shapes.antt =====
-- The cases of libjarl/syntax_checker.cpp that look into a child: `var`, `assert`, `for`, `if` and
-- an index.
use jarl.Common.{ℕ, ◌≡◌, refl, Bool, true, false, arith, if◌then◌else◌}
use jarl.Ast.{AstNode, leaf, one, two, AstNodeType as A, Flags, flags_of, code, arm_class}
use jarl.Ast.Shape.{IsWellFormed}
use jarl.SyntaxChecker.Check.{◌>>=◌, pure, is_value}
use jarl.SyntaxChecker.Validate.{
  visit_var, visit_assert, visit_if, visit_index, visit_in, visit_for, flags_if,
}
use jarl.SyntaxChecker.Rules.{
  kind, in_kind, stepper_kind, var_kind, assert_kind, is_valued, value_if, both, IsValue, IsWritten,
  annotate, InExpr, Stepper, Branches, Bounds, Assigned, Message as Messages, rules, reads,
}
use jarl.SyntaxChecker.Parts.{expect_value_nop-Says, expect_single-Says, expect_bound-Says}
use jarl.SyntaxChecker.Steps.{
  Gives, report-Says, pure-Gives, then-Gives, ends, is_value-Gives, flags-annotate,
  expect_value-Says, expect_l_value-Says, expect_identifier-Says,
}

-- `var`, `assert`, `for`, `if` and an index, by the shape of the child that they look into.
pub visit_var-Gives :
    (f : Flags) (n : AstNode)
    → IsWellFormed n
    → Assigned reads n
    → Gives (var_kind f n) (Assigned rules n) (visit_var f (annotate n))
unfolding visit_var annotate arm_class code
visit_var-Gives f (two A.assign _ _ a b) wf w =
    then-Gives (expect_l_value-Says a w.0) (ends Flags.none (expect_value-Says b w.1))
visit_var-Gives f (two t _ _ a b) wf w = ends f (report-Says _ _ (λ h. h))
visit_var-Gives f (one A.assign _ _ c) wf w = absurd (omega arith)
visit_var-Gives f (one t _ _ c) wf w = ends f (report-Says _ _ (λ h. h))
visit_var-Gives f (leaf A.assign _ _ v) wf w = absurd wf
visit_var-Gives f (leaf t _ _ v) wf w = ends f (report-Says _ _ (λ h. h))

pub visit_assert-Gives :
    (f : Flags) (n : AstNode)
    → IsWellFormed n
    → Messages reads n
    → Gives (assert_kind f n) (Messages rules n) (visit_assert f (annotate n))
unfolding visit_assert annotate arm_class code
visit_assert-Gives f (two A.expr_list _ _ a b) wf w =
    then-Gives (expect_single-Says a wf.2 w.0) (ends Flags.none (expect_single-Says b wf.3 w.1))
visit_assert-Gives f (two t _ _ a b) wf w = ends f (report-Says _ _ (λ h. h))
visit_assert-Gives f (one A.expr_list _ _ c) wf w = absurd (omega arith)
visit_assert-Gives f (one t _ _ c) wf w = ends f (report-Says _ _ (λ h. h))
visit_assert-Gives f (leaf A.expr_list _ _ v) wf w = absurd wf
visit_assert-Gives f (leaf t _ _ v) wf w = ends f (report-Says _ _ (λ h. h))

pub visit_in-Gives :
    (f : Flags) (n : AstNode)
    → IsWellFormed n
    → InExpr reads n
    → Gives (in_kind f n) (InExpr rules n) (visit_in f (annotate n))
unfolding visit_in annotate arm_class code
visit_in-Gives f (two A.in_ _ _ x y) wf w =
    then-Gives (expect_identifier-Says x) (ends Flags.none (expect_value-Says y w.1))
visit_in-Gives f (two t _ _ a b) wf w = ends f (report-Says _ _ (λ h. h))
visit_in-Gives f (one A.in_ _ _ c) wf w = absurd (omega arith)
visit_in-Gives f (one t _ _ c) wf w = ends f (report-Says _ _ (λ h. h))
visit_in-Gives f (leaf A.in_ _ _ v) wf w = absurd wf
visit_in-Gives f (leaf t _ _ v) wf w = ends f (report-Says _ _ (λ h. h))

pub visit_for-Gives :
    (f : Flags) (n : AstNode)
    → IsWellFormed n
    → Stepper reads n
    → Gives (stepper_kind f n) (Stepper rules n) (visit_for f (annotate n))
unfolding visit_for annotate arm_class code
visit_for-Gives f (two A.expr_list _ _ x s) wf w =
    then-Gives (expect_identifier-Says x) (visit_in-Gives f s wf.3 w.1)
visit_for-Gives f (two t f' p a b) wf w = visit_in-Gives f (two t f' p a b) wf w
visit_for-Gives f (one A.expr_list _ _ c) wf w = absurd (omega arith)
visit_for-Gives f (one t f' p c) wf w = visit_in-Gives f (one t f' p c) wf w
visit_for-Gives f (leaf A.expr_list _ _ v) wf w = absurd wf
visit_for-Gives f (leaf t f' p v) wf w = visit_in-Gives f (leaf t f' p v) wf w

pub visit_index-Gives :
    (a b : AstNode)
    → IsWellFormed b
    → IsWritten a
    → Bounds reads b
    → Gives Flags.lvalue (IsValue a × Bounds rules b) (visit_index (annotate a) (annotate b))
unfolding visit_index annotate arm_class code
visit_index-Gives a (two A.expr_list _ _ x y) wf v w = then-Gives (expect_value-Says a v) (
    then-Gives (expect_bound-Says x wf.2) (
      then-Gives (expect_bound-Says y wf.3) (
        then-Gives (expect_value_nop-Says x wf.2 w.1.1.0)
          (ends Flags.lvalue (expect_value_nop-Says y wf.3 w.1.1.1)))))
visit_index-Gives a (two t f p x y) wf v w =
    then-Gives (expect_value-Says a v) (ends Flags.lvalue (expect_value-Says (two t f p x y) w))
visit_index-Gives a (one A.expr_list _ _ c) wf v w = absurd (omega arith)
visit_index-Gives a (one t f p c) wf v w =
    then-Gives (expect_value-Says a v) (ends Flags.lvalue (expect_value-Says (one t f p c) w))
visit_index-Gives a (leaf A.expr_list _ _ x) wf v w = absurd wf
visit_index-Gives a (leaf t f p x) wf v w =
    then-Gives (expect_value-Says a v) (ends Flags.lvalue (expect_value-Says (leaf t f p x) w))

-- The flags that decide those of an `if` with an `else`.
branches-Gives :
    {Q : Type 0} (q : Q) (x y : AstNode)
    → IsWritten x
    → (is_valued (kind x) ≡ true → IsWritten y)
    → Gives (value_if (both (is_valued (kind x)) (is_valued (kind y)))) Q (
        is_value (flags_of (annotate x)) >>= λ v.
        if v
        then (is_value (flags_of (annotate y)) >>= λ w. pure (flags_if w))
        else pure Flags.none)
branches-Gives {Q} q x y wx wy =
    rw flags-annotate (is_value-Gives (kind x) _ wx (second (is_valued (kind x)) refl))
  where
    flags_value : (v : Bool) → flags_if v ≡ value_if v
    flags_value true = refl
    flags_value false = refl

    second :
        (v : Bool)
        → is_valued (kind x) ≡ v
        → Gives (value_if (both v (is_valued (kind y)))) Q (
            if v
            then (is_value (flags_of (annotate y)) >>= λ w. pure (flags_if w))
            else pure Flags.none)
    second true e =
        rw flags-annotate (is_value-Gives (kind y) _ (wy e) (rw flags_value (pure-Gives _ q)))
    second false e = pure-Gives _ q

pub visit_if-Gives :
    (f : Flags) (p : ℕ × ℕ) (a b : AstNode)
    → IsWellFormed b
    → IsWritten a
    → Branches reads b
    → Gives
        (kind (two A.if_ f p a b))
        (IsValue a × Branches rules b)
        (visit_if (annotate a) (annotate b))
unfolding visit_if annotate arm_class code kind
visit_if-Gives f p a (two A.else_ _ _ x y) wf v w =
    then-Gives (expect_value-Says a v) (branches-Gives (tt, λ _. tt) x y w.0 w.1)
visit_if-Gives f p a (two t _ _ x y) wf v w =
    then-Gives (expect_value-Says a v) (pure-Gives Flags.none tt)
visit_if-Gives f p a (one A.else_ _ _ c) wf v w = absurd (omega arith)
visit_if-Gives f p a (one t _ _ c) wf v w =
    then-Gives (expect_value-Says a v) (pure-Gives Flags.none tt)
visit_if-Gives f p a (leaf A.else_ _ _ x) wf v w = absurd wf
visit_if-Gives f p a (leaf t _ _ x) wf v w =
    then-Gives (expect_value-Says a v) (pure-Gives Flags.none tt)
