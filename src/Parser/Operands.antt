-- ===== src/Parser/Operands.antt =====
-- What `Parser::expression_` of libjarl/parser.cpp does with an operand, with parentheses and with
-- an operator between two operands.
use mathlib.Core.List.{append_assoc}
use jarl.Common.{
  ltb-true, ℕ, zero, suc, ◌≡◌, ◌≤◌, ◌<◌, refl, ap, ◌∙◌, false, List, [], ◌∷◌, ◌++◌, ltb-false,
  length, length-push, length-append, arith, ℤ,
}
use jarl.Common.Outcome.{ok}
use jarl.Errors.{Error}
use jarl.Lexeme.{
  Lexeme, LexemeType as L, Pos, Bytes, code, of_type, of_int, of_name, int_value, string_value,
}
use jarl.Ast.{AstNode, AstNodeType as A, new_value, new_two}
use jarl.Parser.State.{P, bindp, next, advance, look, current, check_next, skip_if, expect}
use jarl.Parser.Nud.{nud, nud_of}
use jarl.Parser.Climb.{led_loop, expression_body, expression}
use jarl.Parser.Led.{led}
use jarl.Parser.Grammar.{
  Bracket, opening, closing, bracket_node, bracketed, enclose, Operator, symbol, node, precedence,
  right_limit,
}
use jarl.Parser.Climbing.{at, bindp-symbol, bindp-close, led_loop-end, led_loop-symbol}

-- What it is to read an expression: from its lexemes on, `expression_` comes to its loop with the
-- tree in hand and what follows still to be read, if it asks for less than `level` and what follows
-- binds no more than `limit`.
pub record Arrives (n bp : ℕ) (l : List Lexeme) (t : AstNode) (follow : List Lexeme) (prev : Lexeme)
    (errors : List Error) : Type 0 where
  pub fuel : ℕ
  pub before : Lexeme
  pub enough : length follow ≤ fuel
  pub same :
      expression (suc n) bp (at prev l errors)
      ≡ led_loop (expression n) fuel bp t (at before follow errors)

abbrev pub Reads : List Lexeme → AstNode → ℕ → ℕ → Type 0
Reads ls t level limit =
    (n bp : ℕ) (h : Lexeme) (rest : List Lexeme) (prev : Lexeme) (errors : List Error)
    → bp < level
    → bindp h.type ≤ limit
    → length (ls ++ (h ∷ rest)) ≤ suc n
    → Arrives n bp (ls ++ (h ∷ rest)) t (h ∷ rest) prev errors

-- With a lexeme after it that binds no more than is asked for, the expression ends there.
pub Reads-end :
    (ls : List Lexeme) (t : AstNode) (level limit : ℕ)
    → Reads ls t level limit
    → (n bp : ℕ) (h : Lexeme) (rest : List Lexeme) (prev : Lexeme) (errors : List Error)
    → bp < level
    → bindp h.type ≤ limit
    → bindp h.type ≤ bp
    → length (ls ++ (h ∷ rest)) ≤ suc n
    → (before : Lexeme) × (expression (suc n) bp (at prev (ls ++ (h ∷ rest)) errors)
        ≡ ok (t, at before (h ∷ rest) errors))
Reads-end ls t level limit r n bp h rest prev errors b l e s =
    let a = r n bp h rest prev errors b l s in
    let enough = a.enough in
    (
      a.before,
      a.same ∙ led_loop-end (expression n) a.fuel bp _ a.before h rest errors e (omega arith),
    )

pub number-Reads :
    (i : ℤ) (p : Pos) → Reads (of_int i p ∷ []) (new_value A.int (int_value i) p) 0xe0 0xe0
unfolding expression expression_body current look next advance nud nud_of bindp code
number-Reads i p n bp h rest prev errors b l s = record {
  fuel = n;
  before = of_int i p;
  enough = omega arith;
  same = rw (ltb-false 0xe0 bp (omega arith)) refl;
}

pub name-Reads :
    (x : Bytes) (p : Pos)
    → Reads (of_name L.identifier x p ∷ []) (new_value A.identifier (string_value x) p) 0xe0 0xe0
unfolding expression expression_body current look next advance nud nud_of bindp code
name-Reads x p n bp h rest prev errors b l s = record {
  fuel = n;
  before = of_name L.identifier x p;
  enough = omega arith;
  same = rw (ltb-false 0xe0 bp (omega arith)) refl;
}

paren-step :
    (ex : ℕ → P AstNode) (n bp : ℕ) (prev before h : Lexeme) (l rest : List Lexeme)
    (errors : List Error) (t : AstNode)
    → bp ≤ 0xd0
    → ex 0x31 (at (of_type L.l_paren (0, 0)) l errors)
      ≡ ok (t, at before (of_type L.r_paren (0, 0) ∷ h ∷ rest) errors)
    → expression_body ex n bp (at prev (of_type L.l_paren (0, 0) ∷ l) errors)
      ≡ led_loop ex n bp t (at (of_type L.r_paren (0, 0)) (h ∷ rest) errors)
unfolding expression_body current look next advance nud nud_of bindp code expect check_next skip_if
paren-step ex n bp prev before h l rest errors t b e = rw (ltb-false 0xd0 bp b) (rw e refl)

-- An expression in parentheses stands for itself wherever an operand may.
pub paren-Reads :
    (ls : List Lexeme) (t : AstNode) (level limit : ℕ)
    → Reads ls t level limit
    → 0x31 < level
    → 0x10 ≤ limit
    → Reads (enclose false ls) t 0xd0 0xe0
unfolding expression
paren-Reads ls t level limit r v x zero bp h rest prev errors b l s = absurd (
    omega (
      arith,
      length-push ls (of_type L.r_paren (0, 0)),
      length-append (ls ++ (of_type L.r_paren (0, 0) ∷ [])) (h ∷ rest),
    ))
paren-Reads ls t level limit r v x (suc n) bp h rest prev errors b l s =
    let close = of_type L.r_paren (0, 0) in
    let e = append_assoc ls (close ∷ []) (h ∷ rest) in
    let size = ap length e in
    let (before, inner) =
      Reads-end ls t level limit r n 0x31 close (h ∷ rest) (of_type L.l_paren (0, 0)) errors v
        (omega (arith, bindp-close)) (omega (arith, bindp-close)) (omega arith) in
    rw e (record {
      fuel = suc n;
      before = close;
      enough = omega (arith, length-append ls (close ∷ h ∷ rest));
      same =
          paren-step (expression (suc n)) (suc n) bp prev before h (ls ++ (close ∷ h ∷ rest)) rest
            errors t (omega arith) inner;
    })

-- After the left operand, the loop takes the operator and its right operand.
pub infix-step :
    (n bp m : ℕ) (o : Operator) (p : Pos) (ta tb : AstNode) (before h : Lexeme)
    (l rest : List Lexeme) (errors : List Error)
    → bp < precedence o
    → suc (length (h ∷ rest)) ≤ m
    → (prev : Lexeme)
    → expression n (right_limit o) (at (of_type (symbol o) p) l errors)
      ≡ ok (tb, at before (h ∷ rest) errors)
    → (k : ℕ) × (length (h ∷ rest) ≤ k)
      × (led_loop (expression n) m bp ta (at prev (of_type (symbol o) p ∷ l) errors)
          ≡ led_loop (expression n) k bp (new_two (node o) ta tb p) (at before (h ∷ rest) errors))
infix-step n bp zero o p ta tb before h l rest errors b s prev e = absurd (omega arith)
infix-step n bp (suc m) o p ta tb before h l rest errors b s prev e =
    (m, omega arith, led_loop-symbol (expression n) m bp o p ta prev l errors b ∙ rw e refl)

-- Two operands with an operator between them, each of which ends where the operator's precedence
-- says.
pub infix-Reads :
    (o : Operator) (p : Pos) (la lb : List Lexeme) (ta tb : AstNode) (va xa vb xb : ℕ)
    → Reads la ta va xa
    → Reads lb tb vb xb
    → precedence o ≤ va
    → precedence o ≤ xa
    → right_limit o < vb
    → right_limit o ≤ xb
    → Reads
        (la ++ (of_type (symbol o) p ∷ lb))
        (new_two (node o) ta tb p)
        (precedence o)
        (right_limit o)
infix-Reads o p la lb ta tb va xa vb xb ra rb h₁ h₂ h₃ h₄ zero bp h rest prev errors b l s =
    absurd (
      omega (
        arith,
        length-append la (of_type (symbol o) p ∷ lb),
        length-append (la ++ (of_type (symbol o) p ∷ lb)) (h ∷ rest),
      ))
infix-Reads o p la lb ta tb va xa vb xb ra rb h₁ h₂ h₃ h₄ (suc n) bp h rest prev errors b l s =
    let op = of_type (symbol o) p in
    let e = append_assoc la (op ∷ lb) (h ∷ rest) in
    let size = ap length e in
    let a =
      ra (suc n) bp op (lb ++ (h ∷ rest)) prev errors (omega arith) (omega (arith, bindp-symbol o))
        (omega arith) in
    let whole = length-append la (op ∷ (lb ++ (h ∷ rest))) in
    let (last, right) =
      Reads-end lb tb vb xb rb n (right_limit o) h rest op errors h₃ (omega arith) l
        (omega arith) in
    let (k, enough, step) =
      infix-step (suc n) bp a.fuel o p ta tb last h (lb ++ (h ∷ rest)) rest errors b
        (omega (arith, a.enough, length-append lb (h ∷ rest))) a.before right in
    rw e (record { fuel = k; before = last; enough = enough; same = a.same ∙ step })

-- A term in brackets after the left operand.
bracket-step :
    (ex : ℕ → P AstNode) (bp m : ℕ) (k : Bracket) (p : Pos) (ta tb : AstNode)
    (prev before h : Lexeme) (l rest : List Lexeme) (errors : List Error)
    → bp < 0xd0
    → ex 0x31 (at (of_type (opening k) p) l errors)
      ≡ ok (tb, at before (of_type (closing k) (0, 0) ∷ h ∷ rest) errors)
    → led_loop ex (suc m) bp ta (at prev (of_type (opening k) p ∷ l) errors)
      ≡ led_loop ex m bp
          (new_two (bracket_node k) ta tb p)
          (at (of_type (closing k) (0, 0)) (h ∷ rest) errors)
unfolding led_loop current look next advance led bindp code expect check_next skip_if
bracket-step ex bp m Bracket.call p ta tb prev before h l rest errors b e =
    rw (ltb-true bp 0xd0 b) (rw e refl)
bracket-step ex bp m Bracket.index p ta tb prev before h l rest errors b e =
    rw (ltb-true bp 0xd0 b) (rw e refl)

bindp-closing : (k : Bracket) → bindp (closing k) ≡ 0x10
unfolding bindp code
bindp-closing Bracket.call = refl
bindp-closing Bracket.index = refl

bindp-opening : (k : Bracket) → bindp (opening k) ≡ 0xd0
unfolding bindp code
bindp-opening Bracket.call = refl
bindp-opening Bracket.index = refl

regroup :
    (k : Bracket) (p : Pos) (la lb ls : List Lexeme)
    → (la ++ bracketed k p lb) ++ ls
      ≡ la ++ (of_type (opening k) p ∷ (lb ++ (of_type (closing k) (0, 0) ∷ ls)))
regroup k p la lb ls =
    append_assoc la (bracketed k p lb) ls
    ∙ ap (λ (x : List Lexeme). la ++ (of_type (opening k) p ∷ x))
        (append_assoc lb (of_type (closing k) (0, 0) ∷ []) ls)

bracket-Arrives :
    (n bp : ℕ) (l : List Lexeme) (k : Bracket) (p : Pos) (ta tb : AstNode) (h before : Lexeme)
    (inner rest : List Lexeme) (prev : Lexeme) (errors : List Error)
    → bp < 0xd0
    → suc (suc (length (h ∷ rest))) ≤ suc (length inner)
    → Arrives n bp l ta (of_type (opening k) p ∷ inner) prev errors
    → expression n 0x31 (at (of_type (opening k) p) inner errors)
      ≡ ok (tb, at before (of_type (closing k) (0, 0) ∷ h ∷ rest) errors)
    → Arrives n bp l (new_two (bracket_node k) ta tb p) (h ∷ rest) prev errors
bracket-Arrives n bp l k p ta tb h before inner rest prev errors b s a e = go a.fuel a.enough a.same
  where
    go :
        (m : ℕ)
        → length (of_type (opening k) p ∷ inner) ≤ m
        → expression (suc n) bp (at prev l errors)
          ≡ led_loop (expression n) m bp ta (at a.before (of_type (opening k) p ∷ inner) errors)
        → Arrives n bp l (new_two (bracket_node k) ta tb p) (h ∷ rest) prev errors
    go zero w q = absurd (omega arith)
    go (suc m) w q = record {
      fuel = m;
      before = of_type (closing k) (0, 0);
      enough = omega arith;
      same = q ∙ bracket-step (expression n) bp m k p ta tb a.before before h inner rest errors b e;
    }

pub bracket-Reads :
    (k : Bracket) (p : Pos) (la lb : List Lexeme) (ta tb : AstNode) (va xa vb xb : ℕ)
    → Reads la ta va xa
    → Reads lb tb vb xb
    → 0xd0 ≤ va
    → 0xd0 ≤ xa
    → 0x31 < vb
    → 0x10 ≤ xb
    → Reads (la ++ bracketed k p lb) (new_two (bracket_node k) ta tb p) 0xd0 0xd0
bracket-Reads k p la lb ta tb va xa vb xb ra rb h₁ h₂ h₃ h₄ zero bp h rest prev errors b l s =
    absurd (
      omega (
        arith,
        length-append la (bracketed k p lb),
        length-append (la ++ bracketed k p lb) (h ∷ rest),
      ))
bracket-Reads k p la lb ta tb va xa vb xb ra rb h₁ h₂ h₃ h₄ (suc n) bp h rest prev errors b l s =
    let open_ : Lexeme = of_type (opening k) p in
    let close : Lexeme = of_type (closing k) (0, 0) in
    let inner : List Lexeme = lb ++ (close ∷ h ∷ rest) in
    let e : (la ++ bracketed k p lb) ++ (h ∷ rest) ≡ la ++ (open_ ∷ inner) =
      regroup k p la lb (h ∷ rest) in
    let size = ap length e in
    let whole = length-append la (open_ ∷ inner) in
    let (before, read) =
      Reads-end lb tb vb xb rb n 0x31 close (h ∷ rest) open_ errors h₃
        (omega (arith, bindp-closing k)) (omega (arith, bindp-closing k)) (omega arith) in
    let a =
      ra (suc n) bp open_ inner prev errors (omega arith) (omega (arith, bindp-opening k))
        (omega arith) in
    rw e (
      bracket-Arrives (suc n) bp (la ++ (open_ ∷ inner)) k p ta tb h before inner rest prev errors b
        (omega (arith, length-append lb (close ∷ h ∷ rest))) a read)
