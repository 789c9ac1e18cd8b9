-- ===== src/Parser/Prefix.antt =====
-- `Parser::nud_` of libjarl/parser.cpp keeps the parser's invariant, if the calls of `expression_`
-- that it makes do.
use jarl.Common.{some, ℕ, ◌+◌, ◌≤◌, ◌≡◌, refl, [], ◌∷◌, arith, length, length-append}
use jarl.Common.Outcome.{ok, Returns, returns}
use jarl.Errors.{expected_expression}
use jarl.Lexeme.{
  Lexeme, LexemeType as L, code, Payload, int_value, float_value, bool_value, string_value,
}
use jarl.Lexeme.Tokens.{IsTokens, HasValue}
use jarl.Ast.{AstNode, AstNodeType as A, one, two, leaf, arm_class, type_of}
use jarl.Ast
use jarl.Ast.Shape
use jarl.Ast.Shape.{IsWellFormed, error_nodes, error_weight}
use jarl.Parser.State.{ParserState, P, pure, bindp, report_error}
use jarl.Parser.Nud.{
  with_body, statement, lone_separator, nud_of, int_leaf, float_leaf, bool_leaf, string_leaf,
  braces_type, prefix,
}
use jarl.Parser.Post.{Post, Spec, after, expect-Post}

module _ (expression_ : ℕ → P AstNode) (n : ℕ) (spec : Spec n expression_) where
  pub prefix-Post :
      (type : A) (bp : ℕ) (lex : Lexeme) (st : ParserState)
      → (arm_class type ≡ 0x1000) × Shape.IsConcrete type
      → error_weight type ≡ 0
      → 0x10 ≤ bp
      → IsTokens st.rest
      → length st.rest ≤ n
      → Returns (Post 0 st) (prefix expression_ type bp lex st)
  unfolding error_nodes
  prefix-Post type bp lex st c e b t s = after _ (spec bp st b t s) λ x st' shape tokens shorter.
      returns (record {
        shape = (c.0, c.1, shape);
        tokens = tokens;
        shorter = omega arith;
        reported = omega arith;
      })

  pub lone_separator-Post :
      (type : A) (sep : L) (lex : Lexeme) (st : ParserState)
      → (arm_class type ≡ 0x2000) × Shape.IsConcrete type
      → error_weight type ≡ 0
      → 0x10 ≤ bindp sep
      → IsTokens st.rest
      → length st.rest ≤ n
      → Returns (Post 0 st) (lone_separator expression_ type sep lex st)
  unfolding error_nodes
  lone_separator-Post type sep lex st c e b t s =
      after _ (spec (bindp sep + 1) st (omega arith) t s) λ x st' shape tokens shorter.
        returns (record {
          shape = (c.0, c.1, tt, shape);
          tokens = tokens;
          shorter = omega arith;
          reported = omega arith;
        })

  -- The body of `if`, `while`, `for` and `func`, after the node `tok`.
  pub with_body-Post :
      (w : ℕ) (type : A) (tok : AstNode) (st : ParserState)
      → (arm_class type ≡ 0x2000) × Shape.IsConcrete type
      → error_weight type ≡ 0
      → IsWellFormed tok
      → IsTokens st.rest
      → length st.rest ≤ n
      → Returns (Post (error_nodes tok + w) st) (with_body expression_ type tok st)
  unfolding error_nodes
  with_body-Post w type tok st c e wf t s =
      after _ (spec _ st (omega arith) t s) λ x st' shape tokens shorter. returns (record {
        shape = (c.0, c.1, wf, shape);
        tokens = tokens;
        shorter = omega arith;
        reported = omega arith;
      })

  pub statement-Post :
      (type : A) (st : ParserState)
      → (arm_class type ≡ 0x2000) × Shape.IsConcrete type
      → error_weight type ≡ 0
      → IsTokens st.rest
      → length st.rest ≤ n
      → Returns (Post 0 st) (statement expression_ type st)
  unfolding code
  statement-Post type st c e t s =
      after _ (spec _ st (omega arith) t s) λ tok st' shape tokens shorter.
        expect-Post L.do_ _ _ st' (omega arith) tokens
          λ st'' t' s' _. with_body-Post 0 type tok st'' c e shape t' (omega arith)

  -- A node that keeps the errors of what it was made from.
  pub keep :
      {w : ℕ} (x : AstNode) (st : ParserState)
      → IsWellFormed x
      → IsTokens st.rest
      → error_nodes x ≤ w
      → Returns (Post w st) (ok (x, st))
  keep x st shape t e =
      returns (record { shape = shape; tokens = t; shorter = omega arith; reported = omega arith })

  braces-Post :
      (tok : AstNode) (lex : Lexeme) (st : ParserState)
      → IsWellFormed tok
      → IsTokens st.rest
      → Returns
          (Post (error_nodes tok + 0) st)
          (pure (Ast.new_one (braces_type (type_of tok)) tok lex.pos) st)
  unfolding error_nodes arm_class
  braces-Post tok lex st wf t =
      elim (type_of tok)
        as (λ u.
          Returns (Post (error_nodes tok + 0) st)
            (pure (Ast.new_one (braces_type u) tok lex.pos) st)) [
              | A.expr_list ↦ keep _ st (omega arith, omega arith, wf) t (omega arith)
              | A.key_value_pair ↦ keep _ st (omega arith, omega arith, wf) t (omega arith)
              | A.nop ↦ keep _ st (omega arith, omega arith, wf) t (omega arith)
              | _ ↦ keep _ st (omega arith, omega arith, wf) t (omega arith)
            ]

  pub nud_of-Post :
      (t : L) (lex : Lexeme) (st : ParserState)
      → HasValue t lex.value
      → IsTokens st.rest
      → length st.rest ≤ n
      → Returns (Post 0 st) (nud_of expression_ t lex st)
  unfolding nud_of code arm_class error_nodes report_error
  nud_of-Post L.plus lex st v t s = spec _ st (omega arith) t s
  nud_of-Post L.minus lex st v t s =
      prefix-Post A.neg _ lex st (omega arith, omega arith) refl (omega arith) t s
  nud_of-Post L.not_ lex st v t s =
      prefix-Post A.not_ _ lex st (omega arith, omega arith) refl (omega arith) t s
  nud_of-Post L.move lex st v t s =
      prefix-Post A.move _ lex st (omega arith, omega arith) refl (omega arith) t s
  nud_of-Post L.semicolon lex st v t s =
      lone_separator-Post A.seq L.semicolon lex st (omega arith, omega arith) refl (omega arith) t s
  nud_of-Post L.newline lex st v t s =
      lone_separator-Post A.seq L.newline lex st (omega arith, omega arith) refl (omega arith) t s
  nud_of-Post L.comma lex st v t s =
      lone_separator-Post A.expr_list L.comma lex st (omega arith, omega arith) refl (omega arith) t
        s
  nud_of-Post L.colon lex st v t s =
      lone_separator-Post A.key_value_pair L.colon lex st (omega arith, omega arith) refl
        (omega arith) t s
  nud_of-Post L.if_ lex st v t s = statement-Post A.if_ st (omega arith, omega arith) refl t s
  nud_of-Post L.func lex st v t s = expect-Post L.l_paren _ _ st (omega arith) t λ st₁ t₁ s₁ _.
      after _ (spec _ st₁ (omega arith) t₁ (omega arith)) λ cond st₂ shape t₂ s₂.
        expect-Post L.r_paren _ _ st₂ (omega arith) t₂ λ st₃ t₃ s₃ _.
          with_body-Post 0 A.function cond st₃ (omega arith, omega arith) refl shape t₃
            (omega arith)
  nud_of-Post L.while lex st v t s = statement-Post A.while st (omega arith, omega arith) refl t s
  nud_of-Post L.for lex st v t s = statement-Post A.for st (omega arith, omega arith) refl t s
  nud_of-Post L.l_paren lex st v t s = after _ (spec _ st (omega arith) t s) λ tok st₁ shape t₁ s₁.
      expect-Post L.r_paren _ _ st₁ (omega arith) t₁
        λ st₂ t₂ s₂ _. keep tok st₂ shape t₂ (omega arith)
  nud_of-Post L.l_brace lex st v t s = after _ (spec _ st (omega arith) t s) λ tok st₁ shape t₁ s₁.
      expect-Post L.r_brace _ _ st₁ (omega arith) t₁ λ st₂ t₂ s₂ _. braces-Post tok lex st₂ shape t₂
  nud_of-Post L.l_bracket lex st v t s =
      after _ (spec _ st (omega arith) t s) λ tok st₁ shape t₁ s₁.
        expect-Post L.r_bracket _ _ st₁ (omega arith) t₁
          λ st₂ t₂ s₂ _. keep _ st₂ (omega arith, omega arith, shape) t₂ (omega arith)
  nud_of-Post L.int lex st v t s = value_leaf lex.value v
    where
      value_leaf : (p : Payload) → HasValue L.int p → Returns (Post 0 st) (int_leaf lex p st)
      value_leaf (int_value i) h = keep _ st tt t (omega arith)
      value_leaf _ h = absurd h
  nud_of-Post L.float lex st v t s = value_leaf lex.value v
    where
      value_leaf : (p : Payload) → HasValue L.float p → Returns (Post 0 st) (float_leaf lex p st)
      value_leaf (float_value i) h = keep _ st tt t (omega arith)
      value_leaf _ h = absurd h
  nud_of-Post L.bool lex st v t s = value_leaf lex.value v
    where
      value_leaf : (p : Payload) → HasValue L.bool p → Returns (Post 0 st) (bool_leaf lex p st)
      value_leaf (bool_value i) h = keep _ st tt t (omega arith)
      value_leaf _ h = absurd h
  nud_of-Post L.null lex st v t s = keep _ st tt t (omega arith)
  nud_of-Post L.string lex st v t s = value_leaf lex.value v
    where
      value_leaf :
          (p : Payload) → HasValue L.string p → Returns (Post 0 st) (string_leaf A.string lex p st)
      value_leaf (string_value i) h = keep _ st tt t (omega arith)
      value_leaf _ h = absurd h
  nud_of-Post L.identifier lex st v t s = value_leaf lex.value v
    where
      value_leaf :
          (p : Payload)
          → HasValue L.identifier p
          → Returns (Post 0 st) (string_leaf A.identifier lex p st)
      value_leaf (string_value i) h = keep _ st tt t (omega arith)
      value_leaf _ h = absurd h
  nud_of-Post L.var lex st v t s =
      prefix-Post A.var _ lex st (omega arith, omega arith) refl (omega arith) t s
  nud_of-Post L.return lex st v t s =
      prefix-Post A.return _ lex st (omega arith, omega arith) refl (omega arith) t s
  nud_of-Post L.recurse lex st v t s = expect-Post L.l_paren _ _ st (omega arith) t λ st₁ t₁ s₁ _.
      after _ (spec _ st₁ (omega arith) t₁ (omega arith)) λ args st₂ shape t₂ s₂.
        expect-Post L.r_paren _ _ st₂ (omega arith) t₂
          λ st₃ t₃ s₃ _. keep _ st₃ (omega arith, omega arith, shape) t₃ (omega arith)
  nud_of-Post L.print lex st v t s =
      prefix-Post A.print _ lex st (omega arith, omega arith) refl (omega arith) t s
  nud_of-Post L.assert lex st v t s =
      prefix-Post A.assert _ lex st (omega arith, omega arith) refl (omega arith) t s
  nud_of-Post _ lex st v t s = returns (record {
    shape = tt;
    tokens = t;
    shorter = omega arith;
    reported = omega (
      arith,
      length-append st.errors
          (record { line = some st.prev.pos.0; message = expected_expression } ∷ []),
    );
  })
