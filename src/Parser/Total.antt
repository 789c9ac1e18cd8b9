-- ===== src/Parser/Total.antt =====
-- `Parser::led_`, `expression_` and `parse` of libjarl/parser.cpp on lexemes that end in `End`.
use jarl.Common.{
  ℕ, zero, suc, ◌+◌, ◌≤◌, refl, ap, List, ◌∷◌, arith, length, inl, inr, some, leb, ltb,
  Option-cases, tests,
}
use jarl.Common.Outcome.{Returns, returns, Returns-bind, Returns-map}
use jarl.Errors.{Error, unexpected_lexeme}
use jarl.Lexeme.{Lexeme, LexemeType as L, code}
use jarl.Lexeme.Tokens.{IsTokens, IsSymbol, HasValue}
use jarl.Ast.{AstNode, arm_class}
use jarl.Ast.Shape.{IsWellFormed, error_nodes}
use jarl.Parser.State.{ParserState, P, bindp, fail, stop}
use jarl.Parser.Led.{
  postfix, separated, left_assoc, right_assoc, led, binary_type, right_assoc_type, separator_type,
}
use jarl.Parser.Nud.{nud}
use jarl.Parser.Climb.{led_loop, expression_body, expression, parse}
use jarl.Parser.Joins.{binary_type-Joins, right_assoc_type-Joins, separator_type-IsPair, join-Post}
use jarl.Parser.Prefix.{nud_of-Post, keep}
use jarl.Parser.Post.{
  Post, Spec, Post-moved, after, fail-Post, Returns-if_at, Post-chain, code-ne_zero, IsTokens-tail,
  current_lem, next_lem, expect-Post,
}

module _ (expression_ : ℕ → P AstNode) (n : ℕ) (spec : Spec n expression_) where
  postfix-Post :
      (t : L) (lex : Lexeme) (left : AstNode) (st : ParserState)
      → HasValue lex.type lex.value
      → IsWellFormed left
      → IsTokens st.rest
      → length st.rest ≤ n
      → Returns (Post (error_nodes left) st) (postfix expression_ t lex left st)
  unfolding nud error_nodes code arm_class
  postfix-Post L.l_bracket lex left st v wf t s =
      after _ (spec _ st (omega arith) t s) λ right st₁ shape t₁ s₁.
        expect-Post L.r_bracket _ _ st₁ (omega arith) t₁ λ st₂ t₂ s₂ _.
          keep expression_ n spec _ st₂ (omega arith, omega arith, wf, shape) t₂ (omega arith)
  postfix-Post L.l_paren lex left st v wf t s =
      after _ (spec _ st (omega arith) t s) λ right st₁ shape t₁ s₁.
        expect-Post L.r_paren _ _ st₁ (omega arith) t₁ λ st₂ t₂ s₂ _.
          keep expression_ n spec _ st₂ (omega arith, omega arith, wf, shape) t₂ (omega arith)
  postfix-Post _ lex left st v wf t s =
      after _ (nud_of-Post expression_ n spec lex.type lex st v t s) λ right st₁ shape t₁ s₁.
        keep expression_ n spec _ st₁ (omega arith, omega arith, wf, shape) t₁ (omega arith)

  separated-Post :
      (lex : Lexeme) (left : AstNode) (st : ParserState)
      → IsWellFormed left
      → 0x10 ≤ bindp lex.type
      → IsTokens st.rest
      → length st.rest ≤ n
      → Returns (Post (error_nodes left) st) (separated expression_ lex left st)
  unfolding separated
  separated-Post lex left st wf b t s = after _ (spec _ st b t s) λ right st₁ shape t₁ s₁.
      elim (Option-cases (separator_type lex.type)) [
        | inl none_ ↦ rw none_ (fail-Post unexpected_lexeme st₁ t₁)
        | inr (type, e) ↦ rw e (
            join-Post left right lex st₁ (some type) (fail unexpected_lexeme)
              (separator_type-IsPair lex.type type e) (omega arith) wf shape t₁)
      ]

  led-Post :
      (lex : Lexeme) (left : AstNode) (st : ParserState)
      → IsSymbol lex.type
      → HasValue lex.type lex.value
      → 0x10 ≤ bindp lex.type
      → IsWellFormed left
      → IsTokens st.rest
      → length st.rest ≤ n
      → Returns (Post (error_nodes left) st) (led expression_ lex left st)
  unfolding led left_assoc right_assoc
  led-Post lex left st sym v b wf t s =
      Returns-if_at (leb (code L.expr_class) (bindp lex.type)) _ _ st
        (λ _. postfix-Post lex.type lex left st v wf t s)
        λ c₁.
          Returns-if_at (leb (code L.left_assoc_class) (bindp lex.type)) _ _ st
            (λ c₂. after _ (spec _ st b t s) λ right st₁ shape t₁ s₁.
              join-Post left right lex st₁ (binary_type lex.type) stop
                (binary_type-Joins lex.type sym (omega tests) (ground arith)) (omega arith) wf shape
                t₁)
            λ c₂.
              Returns-if_at (leb (code L.right_assoc_class) (bindp lex.type)) _ _ st
                (λ c₃. after _ (spec _ st (unfold code in omega tests) t s) λ right st₁ shape t₁ s₁.
                  join-Post left right lex st₁ (right_assoc_type lex.type) stop
                    (right_assoc_type-Joins lex.type sym (omega tests) (ground arith)) (omega arith)
                    wf shape t₁)
                λ c₃.
                  Returns-if_at (leb (code L.stop_symbol_class) (bindp lex.type)) _ _ st
                    (λ c₄. separated-Post lex left st wf b t s)
                    (λ c₄. absurd (unfold code in ground arith))

  led_loop-Post :
      (m bp : ℕ) (left : AstNode) (st : ParserState)
      → 0x10 ≤ bp
      → IsWellFormed left
      → IsTokens st.rest
      → length st.rest ≤ m
      → length st.rest ≤ n
      → Returns (Post (error_nodes left) st) (led_loop expression_ m bp left st)
  unfolding led_loop
  led_loop-Post zero bp left st b wf t s s' =
      let (l, tl, e, _) = current_lem st st.rest refl t in
      let some_left = ap length e in absurd (omega arith)
  led_loop-Post (suc m) bp left st b wf t s s' =
      let (l, tl, e, c) = current_lem st st.rest refl t in
      let one_less = ap length e in
      rw c (
        Returns-if_at (ltb bp (bindp l.type)) _ _ st
          (λ h.
            let binds : 0x10 ≤ bindp l.type = omega tests in
            let (t', sym, v) = IsTokens-tail l tl (rw e at t) (code-ne_zero l.type binds) in
            let st' : ParserState = record st { prev = l; rest = tl } in
            rw (next_lem st l tl e) (
              Returns-bind (led-Post l left st' sym v binds wf t' (omega arith)) λ r p.
                let shorter = p.shorter in
                Returns-map
                  (led_loop-Post m bp r.0 r.1 b p.shape p.tokens (omega arith) (omega arith))
                  λ y q. Post-moved (omega arith) refl (Post-chain p q)))
          (λ _. keep expression_ n spec left st wf t (omega arith)))

  expression_body-Post :
      (bp : ℕ) (st : ParserState)
      → 0x10 ≤ bp
      → IsTokens st.rest
      → length st.rest ≤ suc n
      → Returns (Post 0 st) (expression_body expression_ n bp st)
  unfolding expression_body nud error_nodes
  expression_body-Post bp st b t s =
      let (l, tl, e, c) = current_lem st st.rest refl t in
      let one_less = ap length e in
      rw c (
        Returns-if_at (ltb (bindp l.type) bp) _ _ st
          (λ _. keep expression_ n spec _ st tt t (omega arith))
          (λ h.
            let binds : 0x10 ≤ bindp l.type = omega tests in
            let (t', sym, v) = IsTokens-tail l tl (rw e at t) (code-ne_zero l.type binds) in
            let st' : ParserState = record st { prev = l; rest = tl } in
            rw (next_lem st l tl e) (
              Returns-bind (nud_of-Post expression_ n spec l.type l st' v t' (omega arith)) λ r p.
                let shorter = p.shorter in
                Returns-map
                  (led_loop-Post n bp r.0 r.1 b p.shape p.tokens (omega arith) (omega arith))
                  λ y q. Post-moved (omega arith) refl (Post-chain p q))))

expression-Spec : (n : ℕ) → Spec n (expression n)
unfolding expression
expression-Spec zero bp st b t s =
    let (l, tl, e, _) = current_lem st st.rest refl t in
    let some_left = ap length e in absurd (omega arith)
expression-Spec (suc n) bp st b t s =
    expression_body-Post (expression n) n (expression-Spec n) bp st b t s

-- What a caller is given: a well-formed tree, and at least one new error for each error node.
pub record Parsed (errors : List Error) (r : AstNode × List Error) : Type 0 where
  pub shape : IsWellFormed r.0
  pub reported : length errors + error_nodes r.0 ≤ length r.1

-- On lexemes that end in `End`, whatever comes before, the parser returns within its fuel and
-- without reading past the end or failing an assertion; each node of the tree has the children or
-- the value that its type says, and each error node in it has an error of its own in the list,
-- added to those that were there.
pub parse-Parsed :
    (first : Lexeme) (rest : List Lexeme) (errors : List Error)
    → IsTokens rest
    → Returns (Parsed errors) (parse (first ∷ rest) errors)
unfolding parse
parse-Parsed first rest errors t =
    Returns-bind
      (expression-Spec (length rest) 0x11 (record { prev = first; rest = rest; errors = errors })
        (omega arith) t (omega arith))
      λ r p. let e = p.reported in returns (record { shape = p.shape; reported = omega arith })
