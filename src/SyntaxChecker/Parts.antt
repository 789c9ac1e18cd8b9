-- ===== src/SyntaxChecker/Parts.antt =====
-- The steps of libjarl/syntax_checker.cpp that look at the shape of a well-formed child.
use jarl.Common.{List, [], ◌∷◌, arith, All}
use jarl.Ast.{
  AstNode, leaf, one, two, AstNodeType as A, expr_list_items, expr_list_from, code, arm_class,
}
use jarl.Ast.Shape.{IsWellFormed}
use jarl.SyntaxChecker.Check.{C}
use jarl.SyntaxChecker.Expect.{
  expected_value_error, expected_key_value_pair_error, expect_value_nop, for_each,
}
use jarl.SyntaxChecker.Validate.{expect_entry, expect_single, expect_bound}
use jarl.SyntaxChecker.Rules.{annotate, OrNop, NoList, Single, Entry, rules, reads}
use jarl.SyntaxChecker.Steps.{
  Says, report-Says, skip-Says, then-Says, items-annotate, expect_value-Says, for_each-Says,
}

-- Every node of a list is well formed.
items_from-IsWellFormed : (n : AstNode) → IsWellFormed n → All IsWellFormed (expr_list_from n)
unfolding expr_list_from
items_from-IsWellFormed (two A.expr_list f p a b) w = (w.2, items_from-IsWellFormed b w.3)
items_from-IsWellFormed (two t f p a b) w = (w, tt)
items_from-IsWellFormed (one t f p c) w = (w, tt)
items_from-IsWellFormed (leaf t f p v) w = (w, tt)

items-IsWellFormed : (n : AstNode) → IsWellFormed n → All IsWellFormed (expr_list_items n)
unfolding expr_list_items
items-IsWellFormed (leaf A.nop f p v) w = tt
items-IsWellFormed (leaf t f p v) w = (w, tt)
items-IsWellFormed (one t f p c) w = (w, tt)
items-IsWellFormed (two t f p a b) w = items_from-IsWellFormed (two t f p a b) w

All-both :
    (P Q : AstNode → Type 0) (ns : List AstNode) → All P ns → All Q ns → All (λ n. P n × Q n) ns
All-both P Q [] p q = tt
All-both P Q (n ∷ ns) p q = ((p.0, q.0), All-both P Q ns p.1 q.1)

-- The steps over the items of a list.
pub each-Says :
    (step : AstNode → C (Unit {0})) (W P : AstNode → Type 0) (c : AstNode)
    → ((n : AstNode) → IsWellFormed n → W n → Says (P n) (step (annotate n)))
    → IsWellFormed c
    → All W (expr_list_items c)
    → Says (All P (expr_list_items c)) (for_each step (expr_list_items (annotate c)))
each-Says step W P c says wf w = rw items-annotate (
    for_each-Says step (λ n. IsWellFormed n × W n) P (λ n h. says n h.0 h.1) (expr_list_items c)
      (All-both IsWellFormed W (expr_list_items c) (items-IsWellFormed c wf) w))

pub expect_value_nop-Says :
    (n : AstNode)
    → IsWellFormed n
    → OrNop reads n
    → Says (OrNop rules n) (expect_value_nop (annotate n))
unfolding expect_value_nop annotate arm_class code
expect_value_nop-Says (leaf A.nop f p v) wf w = skip-Says tt
expect_value_nop-Says (leaf t f p v) wf w = expect_value-Says (leaf t f p v) w
expect_value_nop-Says (one A.nop f p c) wf w = absurd (omega arith)
expect_value_nop-Says (one t f p c) wf w = expect_value-Says (one t f p c) w
expect_value_nop-Says (two A.nop f p a b) wf w = absurd (omega arith)
expect_value_nop-Says (two t f p a b) wf w = expect_value-Says (two t f p a b) w

pub expect_entry-Says :
    (n : AstNode)
    → IsWellFormed n
    → Entry reads n
    → Says (Entry rules n) (expect_entry (annotate n))
unfolding expect_entry annotate arm_class code expected_key_value_pair_error
expect_entry-Says (leaf A.nop f p v) wf w = skip-Says tt
expect_entry-Says (leaf A.key_value_pair f p v) wf w = absurd wf
expect_entry-Says (leaf t f p v) wf w = report-Says _ _ (λ h. h)
expect_entry-Says (one A.nop f p c) wf w = absurd (omega arith)
expect_entry-Says (one A.key_value_pair f p c) wf w = absurd (omega arith)
expect_entry-Says (one t f p c) wf w = report-Says _ _ (λ h. h)
expect_entry-Says (two A.nop f p a b) wf w = absurd (omega arith)
expect_entry-Says (two A.key_value_pair f p a b) wf w =
    then-Says (expect_value-Says a w.0) (expect_value-Says b w.1)
expect_entry-Says (two t f p a b) wf w = report-Says _ _ (λ h. h)

pub expect_single-Says :
    (n : AstNode)
    → IsWellFormed n
    → Single reads n
    → Says (Single rules n) (expect_single (annotate n))
unfolding expect_single annotate arm_class code expected_value_error
expect_single-Says (two A.expr_list f p a b) wf w = report-Says _ _ (λ h. h)
expect_single-Says (two t f p a b) wf w = expect_value-Says (two t f p a b) w
expect_single-Says (one A.expr_list f p c) wf w = absurd (omega arith)
expect_single-Says (one t f p c) wf w = expect_value-Says (one t f p c) w
expect_single-Says (leaf A.expr_list f p v) wf w = absurd wf
expect_single-Says (leaf t f p v) wf w = expect_value-Says (leaf t f p v) w

pub expect_bound-Says :
    (n : AstNode) → IsWellFormed n → Says (NoList rules n) (expect_bound (annotate n))
unfolding expect_bound annotate arm_class code expected_value_error
expect_bound-Says (two A.expr_list f p a b) wf = report-Says _ _ (λ h. h)
expect_bound-Says (two t f p a b) wf = skip-Says tt
expect_bound-Says (one A.expr_list f p c) wf = absurd (omega arith)
expect_bound-Says (one t f p c) wf = skip-Says tt
expect_bound-Says (leaf A.expr_list f p v) wf = absurd wf
expect_bound-Says (leaf t f p v) wf = skip-Says tt
