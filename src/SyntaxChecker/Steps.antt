-- ===== src/SyntaxChecker/Steps.antt =====
-- How the steps of libjarl/syntax_checker.cpp count errors: a step adds none exactly when what it
-- demands holds.
use jarl.Common.{
  ℕ, ◌≤◌, ◌≡◌, ◌≢◌, ◌↔◌, refl, ap, Bool, true, List, [], ◌∷◌, map, Option, arith, length,
  length-append, if◌then◌else◌, All,
}
use jarl.Common.Outcome.{Returns, returns, Returns-bind, Returns-map}
use jarl.Errors.{Error, Message}
use jarl.Ast.{
  AstNode, leaf, one, two, AstNodeType as A, Flags, type_of, flags_of, expr_list_items,
  expr_list_from,
}
use jarl.SyntaxChecker.Check.{C, ◌>>=◌, ◌>>◌, pure, skip, is_value, is_lvalue, report}
use jarl.SyntaxChecker.Expect.{
  expected_value_error, expect_value, expect_l_value, expect_identifier, for_each,
}
use jarl.SyntaxChecker.Rules.{kind, is_valued, IsValue, IsLValue, IsIdentifier, IsWritten, annotate}

-- No error is lost, and none is new exactly when `Q` holds.
pub record Counts (Q : Type 0) (errs errs' : List Error) : Type 0 where
  pub kept : length errs ≤ length errs'
  pub silent : (length errs' ≡ length errs) ↔ Q

abbrev pub Says : Type 0 → C (Unit {0}) → Type 0
Says Q m = (errs : List Error) → Returns (λ r. Counts Q errs r.1) (m errs)

-- The same of a step that gives a value.
abbrev pub Gives : {T : Type 0} → T → Type 0 → C T → Type 0
Gives t Q m = (errs : List Error) → Returns (λ r. (r.0 ≡ t) × Counts Q errs r.1) (m errs)

pub Counts-both :
    {Q R : Type 0} {e e' e'' : List Error} → Counts Q e e' → Counts R e' e'' → Counts (Q × R) e e''
Counts-both {Q} {R} {e} {e'} {e''} a b = record {
  kept = omega (arith, a.kept, b.kept);
  silent = (forth, back);
}
  where
    forth : length e'' ≡ length e → Q × R
    forth h =
        (a.silent.0 (omega (arith, a.kept, b.kept)), b.silent.0 (omega (arith, a.kept, b.kept)))

    back : Q × R → length e'' ≡ length e
    back (q, r) = omega (arith, a.silent.1 q, b.silent.1 r)

pub Counts-none : {Q : Type 0} (e : List Error) → Q → Counts Q e e
Counts-none e q = record { kept = omega arith; silent = (λ _. q, λ _. refl) }

pub Counts-iff : {Q R : Type 0} {e e' : List Error} → Q ↔ R → Counts Q e e' → Counts R e e'
Counts-iff f a = record {
  kept = a.kept;
  silent = (λ h. f.0 (a.silent.0 h), λ r. a.silent.1 (f.1 r));
}

pub report-Says : {Q : Type 0} (line : Option ℕ) (msg : Message) → ¬ Q → Says Q (report line msg)
unfolding report
report-Says line msg no_q errs =
    let longer = length-append errs (record { line = line; message = msg } ∷ []) in
    returns
      (record { kept = omega arith; silent = (λ h. absurd (omega arith), λ q. absurd (no_q q)) })

pub skip-Says : {Q : Type 0} → Q → Says Q skip
skip-Says q errs = returns (Counts-none errs q)

pub pure-Gives : {T : Type 0} {Q : Type 0} (t : T) → Q → Gives t Q (pure t)
pure-Gives t q errs = returns (refl, Counts-none errs q)

module _ {Q : Type 0} {m : C (Unit {0})} where
  pub then-Says : {R : Type 0} {k : C (Unit {0})} → Says Q m → Says R k → Says (Q × R) (m >> k)
  then-Says a b errs = Returns-bind (a errs) λ r p. Returns-map (b r.1) λ s q. Counts-both p q

  pub then-Gives :
      {T : Type 0} {t : T} {R : Type 0} {k : C T}
      → Says Q m
      → Gives t R k
      → Gives t (Q × R) (m >> k)
  then-Gives a b errs =
      Returns-bind (a errs) λ r p. Returns-map (b r.1) λ s q. (q.0, Counts-both p q.1)

  -- A last step, and then a value.
  pub ends : {T : Type 0} (t : T) → Says Q m → Gives t Q (m >> pure t)
  ends t a errs = Returns-bind (a errs) λ r p. returns (refl, p)

pub is_value-Gives :
    {T : Type 0} {t : T} {R : Type 0} (f : Flags) (k : Bool → C T)
    → f ≢ Flags.unset
    → Gives t R (k (is_valued f))
    → Gives t R (is_value f >>= k)
unfolding is_value
is_value-Gives Flags.unset k w g errs = absurd (w refl)
is_value-Gives Flags.none k w g errs = g errs
is_value-Gives Flags.value k w g errs = g errs
is_value-Gives Flags.lvalue k w g errs = g errs

-- What the annotated tree has in common with the tree.
pub flags-annotate : (n : AstNode) → flags_of (annotate n) ≡ kind n
unfolding annotate
flags-annotate (leaf t f p v) = refl
flags-annotate (one t f p c) = refl
flags-annotate (two t f p a b) = refl

pub type-annotate : (n : AstNode) → type_of (annotate n) ≡ type_of n
unfolding annotate
type-annotate (leaf t f p v) = refl
type-annotate (one t f p c) = refl
type-annotate (two t f p a b) = refl

items_from-annotate : (n : AstNode) → expr_list_from (annotate n) ≡ map annotate (expr_list_from n)
unfolding annotate expr_list_from
items_from-annotate (two A.expr_list f p a b) = ap (λ ns. annotate a ∷ ns) (items_from-annotate b)
items_from-annotate (two t f p a b) = refl
items_from-annotate (one t f p c) = refl
items_from-annotate (leaf t f p v) = refl

pub items-annotate : (n : AstNode) → expr_list_items (annotate n) ≡ map annotate (expr_list_items n)
unfolding annotate expr_list_items
items-annotate (leaf A.nop f p v) = refl
items-annotate (leaf t f p v) = refl
items-annotate (one t f p c) = refl
items-annotate (two t f p a b) = items_from-annotate (two t f p a b)

valued-Says :
    (f : Flags) (n : AstNode)
    → f ≢ Flags.unset
    → Says (is_valued f ≡ true) (is_value f >>= λ v. if v then skip else expected_value_error n)
unfolding is_value expected_value_error
valued-Says Flags.unset n w errs = absurd (w refl)
valued-Says Flags.none n w errs = report-Says _ _ (λ h. cc) errs
valued-Says Flags.value n w errs = skip-Says refl errs
valued-Says Flags.lvalue n w errs = skip-Says refl errs

pub expect_value-Says : (n : AstNode) → IsWritten n → Says (IsValue n) (expect_value (annotate n))
unfolding expect_value
expect_value-Says n w = rw flags-annotate (valued-Says (kind n) (annotate n) w)

l_valued-Says :
    (f : Flags) (line : Option ℕ) (msg : Message)
    → f ≢ Flags.unset
    → Says (f ≡ Flags.lvalue) (is_lvalue f >>= λ v. if v then skip else report line msg)
unfolding is_lvalue
l_valued-Says Flags.unset line msg w errs = absurd (w refl)
l_valued-Says Flags.none line msg w errs = report-Says line msg (λ h. cc) errs
l_valued-Says Flags.value line msg w errs = report-Says line msg (λ h. cc) errs
l_valued-Says Flags.lvalue line msg w errs = skip-Says refl errs

pub expect_l_value-Says :
    (n : AstNode) → IsWritten n → Says (IsLValue n) (expect_l_value (annotate n))
unfolding expect_l_value
expect_l_value-Says n w = rw flags-annotate (l_valued-Says (kind n) _ _ w)

pub expect_identifier-Says : (n : AstNode) → Says (IsIdentifier n) (expect_identifier (annotate n))
unfolding expect_identifier annotate
expect_identifier-Says (leaf A.identifier f p v) = skip-Says refl
expect_identifier-Says (leaf t f p v) = report-Says _ _ (λ h. cc)
expect_identifier-Says (one A.identifier f p c) = skip-Says refl
expect_identifier-Says (one t f p c) = report-Says _ _ (λ h. cc)
expect_identifier-Says (two A.identifier f p a b) = skip-Says refl
expect_identifier-Says (two t f p a b) = report-Says _ _ (λ h. cc)

pub for_each-Says :
    (step : AstNode → C (Unit {0})) (W P : AstNode → Type 0)
    → ((n : AstNode) → W n → Says (P n) (step (annotate n)))
    → (ns : List AstNode) → All W ns
    → Says (All P ns) (for_each step (map annotate ns))
unfolding for_each
for_each-Says step W P says [] w = skip-Says tt
for_each-Says step W P says (n ∷ ns) w = then-Says (says n w.0) (for_each-Says step W P says ns w.1)
