-- ===== src/Parser/Post.antt =====
-- The invariant of the functions of libjarl/parser.cpp, and the steps that keep it: reading a
-- lexeme, expecting one, and going on after an expression.
use jarl.Common.{
  some, ℕ, ◌+◌, ◌≤◌, ◌≡◌, ◌≢◌, refl, ap, Bool, true, false, List, [], ◌∷◌, arith, length,
  length-append, if◌then◌else◌, ==_iff,
}
use jarl.Common.Outcome
use jarl.Common.Outcome.{Outcome, ok, Returns, returns, Returns-map, Returns-bind, Returns-if}
use jarl.Errors.{Message}
use jarl.Lexeme.{Lexeme, LexemeType as L, code}
use jarl.Lexeme.Tokens.{IsTokens, IsSymbol, HasValue}
use jarl.Ast.{AstNode}
use jarl.Ast.Shape.{IsWellFormed, error_nodes}
use jarl.Parser.State.{
  ParserState, P, bindp, same_type, current, next, check_next, skip_if, fail, expect, look, advance,
}

-- `w` counts the error nodes that were in hand at `st`.
pub record Post (w : ℕ) (st : ParserState) (r : AstNode × ParserState) : Type 0 where
  pub shape : IsWellFormed r.0
  pub tokens : IsTokens r.1.rest
  pub shorter : length r.1.rest ≤ length st.rest
  pub reported : length st.errors + error_nodes r.0 ≤ length r.1.errors + w

abbrev pub Spec : ℕ → (ℕ → P AstNode) → Type 0
Spec n expr =
    (bp : ℕ) (st : ParserState)
    → 0x10 ≤ bp
    → IsTokens st.rest
    → length st.rest ≤ n
    → Returns (Post 0 st) (expr bp st)

-- What a continuation after a node `n` is given.
abbrev pub Continues : ℕ → ParserState → (AstNode → P AstNode) → Type 0
Continues w st f =
    (n : AstNode) (st' : ParserState)
    → IsWellFormed n
    → IsTokens st'.rest
    → length st'.rest ≤ length st.rest
    → Returns (Post (error_nodes n + w) st') (f n st')

pub Post-trans :
    (v : ℕ) {w : ℕ} {st st' : ParserState} {r : AstNode × ParserState}
    → length st'.rest ≤ length st.rest
    → length st.errors + v ≤ length st'.errors
    → Post (v + w) st' r
    → Post w st r
Post-trans v s e p = record {
  shape = p.shape;
  tokens = p.tokens;
  shorter = omega arith;
  reported = omega arith;
}

-- The same, where no error has been reported on the way.
pub Post-moved :
    {w : ℕ} {st st' : ParserState} {r : AstNode × ParserState}
    → length st'.rest ≤ length st.rest
    → st'.errors ≡ st.errors
    → Post w st' r
    → Post w st r
Post-moved s e p =
    let same = ap length e in
    record { shape = p.shape; tokens = p.tokens; shorter = omega arith; reported = omega arith }

pub after :
    {w : ℕ} {st : ParserState} {r : Outcome (AstNode × ParserState)} (f : AstNode → P AstNode)
    → Returns (Post 0 st) r
    → Continues w st f
    → Returns (Post w st) (Outcome.bind r λ x. f x.0 x.1)
after f h k = Returns-bind h λ x p.
    Returns-map (k x.0 x.1 p.shape p.tokens p.shorter)
      λ y q. Post-trans (error_nodes x.0) p.shorter (omega (arith, p.reported)) q

pub fail-Post :
    {w : ℕ} (msg : Message) (st : ParserState)
    → IsTokens st.rest
    → Returns (Post w st) (fail msg st)
unfolding fail error_nodes
fail-Post msg st h = returns (record {
  shape = tt;
  tokens = h;
  shorter = omega arith;
  reported =
      omega
        (arith, length-append st.errors (record { line = some st.prev.pos.0; message = msg } ∷ []));
})

-- A current lexeme that is not the end has others after it.
pub IsTokens-tail :
    (l : Lexeme) (r : List Lexeme)
    → IsTokens (l ∷ r)
    → code l.type ≢ 0
    → IsTokens r × IsSymbol l.type × HasValue l.type l.value
unfolding code
IsTokens-tail l [] h n = absurd (n (ap code h))
IsTokens-tail l (m ∷ r) h n = (h.2, h.0, h.1)

pub current_lem :
    (st : ParserState) (r : List Lexeme)
    → st.rest ≡ r
    → IsTokens r
    → (l : Lexeme) × (tl : List Lexeme) × (r ≡ l ∷ tl) × (current st ≡ ok (l, st))
unfolding current look
current_lem st [] e h = absurd h
current_lem st (l ∷ tl) e h = (l, tl, refl, ap (look st) e)

pub next_lem :
    (st : ParserState) (l : Lexeme) (tl : List Lexeme)
    → st.rest ≡ l ∷ tl
    → next st ≡ ok (l, record st { prev = l; rest = tl })
unfolding next advance
next_lem st l tl e = ap (advance st) e

-- `checkNext_` moves on or stays; a type other than `End` moves to further lexemes.
pub expect-Post :
    {w : ℕ} (type : L) (msg : Message) (k : P AstNode) (st : ParserState)
    → IsSymbol type
    → IsTokens st.rest
    → ((st' : ParserState)
        → IsTokens st'.rest
        → length st'.rest ≤ length st.rest
        → st'.errors ≡ st.errors
        → Returns (Post w st') (k st'))
    → Returns (Post w st) (expect type msg k st)
unfolding expect check_next skip_if
expect-Post {w} type msg k st symbol tokens cont =
    let (l, tl, e, c) = current_lem st st.rest refl tokens in
    rw c (found l tl e (same_type l.type type) refl)
  where
    found :
        (l : Lexeme) (tl : List Lexeme)
        → st.rest ≡ l ∷ tl
        → (b : Bool) → same_type l.type type ≡ b
        → Returns (Post w st) (Outcome.bind (skip_if b st) (λ r. (if r.0 then k else fail msg) r.1))
    found l tl e true s =
        let same = (==_iff (code l.type) (code type)).0 s in
        let (t, _, _) = IsTokens-tail l tl (rw e at tokens) (omega arith) in
        let shorter = ap length e in
        rw (next_lem st l tl e) (
          Returns-map (cont (record st { prev = l; rest = tl }) t (omega arith) refl)
            λ y p. Post-moved (omega arith) refl p)
    found l tl e false s = fail-Post msg st tokens

pub Returns-if_at :
    {w : ℕ} {s : ParserState} (b : Bool) (m k : P AstNode) (st : ParserState)
    → (b ≡ true → Returns (Post w s) (m st))
    → (b ≡ false → Returns (Post w s) (k st))
    → Returns (Post w s) ((if b then m else k) st)
Returns-if_at true m k st hx hy = hx refl
Returns-if_at false m k st hx hy = hy refl

pub Post-chain :
    {w : ℕ} {st : ParserState} {r y : AstNode × ParserState}
    → Post w st r
    → Post (error_nodes r.0) r.1 y
    → Post w st y
Post-chain p q =
    let e = p.reported in
    let e' = q.reported in
    let s = p.shorter in
    let s' = q.shorter in
    record { shape = q.shape; tokens = q.tokens; shorter = omega arith; reported = omega arith }

-- A lexeme that binds at all is not `End`.
pub code-ne_zero : (t : L) → 0x10 ≤ bindp t → code t ≢ 0
unfolding bindp code
code-ne_zero t h e = omega arith
