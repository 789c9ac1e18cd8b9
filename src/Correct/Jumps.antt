-- ===== src/Correct/Jumps.antt =====
-- The jumps of libjarl/code_generator.cpp whose address is filled in afterwards, and the code of
-- `and` and `or`.
use mathlib.Core.Path.{subst}
use mathlib.Core.List.{append_assoc, append-nil}
use jarl.Common.{
  ℕ, ◌+◌, ◌≤◌, ◌<◌, ◌≡◌, refl, arith, Bool, List, [], ◌∷◌, ◌++◌, length, sym, length-append,
}
use jarl.Common.Outcome
use jarl.Common.Outcome.{Outcome, ok}
use jarl.Value.Data.{TypedValue}
use jarl.Function.Lines.{Positions}
use jarl.OpCodes.{word}
use jarl.CodeGenerator.Context.{Context, Gen, ◌>>◌, put}
use jarl.CodeGenerator.Branch.{fill, land}
use jarl.Correct.Expr.{Expr, Emits, size, logic_word}
use jarl.Correct.Emitted.{Emits-length}
use jarl.Correct.Outputs.{grow, Outputs, put-Outputs, Outputs-bind, land_grown}
use jarl.Correct.Threads.{Place, Threads, threads}
use jarl.Correct.Nodes.{shift_Emits, Emits-more, Outputs-elim, put-grow, Anywhere}

-- The code of an expression and then `extra`.
pub data Trailed (e : Expr) (c : Context) (extra : List ℕ) : Outcome Context → Type 0 where
  trailed :
      {r : Outcome Context} (ws : List ℕ) (more : List TypedValue)
      → Emits (Place (c.constants ++ more) (c.var_allocs)) e (length (c.out.code)) ws
      → length more ≤ size e
      → Outputs c (ws ++ extra) more r
      → Trailed e c extra r

pub Threads-Trailed :
    {e : Expr} {c : Context} {r : Outcome Context} → Threads e c r → Trailed e c [] r
Threads-Trailed {e} {c} {r} (threads ws more d b o) =
    trailed ws more d b (subst (λ vs. Outputs c vs more r) (sym (append-nil ws)) o)

pub put-Trailed :
    {e : Expr} {c : Context} {r : Outcome Context} (op line : ℕ)
    → Threads e c r
    → Trailed e c (op ∷ []) (Outcome.bind r (put op line))
put-Trailed {e} {c} {r} op line (threads ws more d b o) = trailed ws more d b (
    subst (λ ms. Outputs c (ws ++ (op ∷ [])) ms (Outcome.bind r (put op line))) (append-nil more)
      (Outputs-bind _ o (λ ps. put-Outputs op line (grow c ws more ps))))

-- A jump over the code of `e` and the words `extra`, as seen from a context with the words `xs` less:
-- the address is that of what comes `n` words after.
pub data Filled (e : Expr) (c : Context) (xs : List ℕ) (ms : List TypedValue) (n : ℕ)
    (extra : List ℕ) : Outcome Context → Type 0 where
  filled :
      {r : Outcome Context} (ws : List ℕ) (more : List TypedValue)
      → Emits
          (Place (c.constants ++ (ms ++ more)) (c.var_allocs))
          e
          (length (c.out.code) + length xs + 1)
          ws
      → length more ≤ size e
      → Outputs c
          (xs
            ++ (word (length (c.out.code) + length xs + 1 + size e + length extra + n)
                ∷ (ws ++ extra)))
          (ms ++ more)
          r
      → Filled e c xs ms n extra r

pub fill-Filled :
    (e : Expr) (c : Context) (xs : List ℕ) (ms : List TypedValue) (ps : Positions) (n line : ℕ)
    (extra : List ℕ) (m : Gen)
    → ((ps' : Positions)
        → Trailed e (grow c (xs ++ (0 ∷ [])) ms ps') extra (m (grow c (xs ++ (0 ∷ [])) ms ps')))
    → Filled e c xs ms n extra (fill n line m (grow c xs ms ps))
unfolding fill
fill-Filled e c xs ms ps n line extra m h =
    Outputs-elim (λ r. Filled e c xs ms n extra r) (m >> land n (length (c.out.code ++ xs)))
      (put-grow 0 line c xs ms ps) (λ ps'. landed (h ps'))
  where
    landed :
        {ps' : Positions} {r : Outcome Context}
        → Trailed e (grow c (xs ++ (0 ∷ [])) ms ps') extra r
        → Filled e c xs ms n extra (Outcome.bind r (land n (length (c.out.code ++ xs))))
    landed {ps'} {r} (trailed ws more d b out) =
        filled ws more
          (shift_Emits c (xs ++ (0 ∷ [])) ms more _ (omega (arith, length-append xs (0 ∷ []))) d) b
          (subst
            (λ k.
              Outputs c (xs ++ (word k ∷ (ws ++ extra))) (ms ++ more)
                (Outcome.bind r (land n (length (c.out.code ++ xs)))))
            (omega (arith, length-append ws extra, Emits-length d))
            (land_grown n c xs (ws ++ extra) ms more ps' out))

module _ (stop : Bool) (a b : Expr) (c : Context) (line : ℕ) where
  logic_second :
      (ws : List ℕ) (ms : List TypedValue) {r : Outcome Context}
      → length (c.out.code) + size (Expr.logic stop a b) < 0x2000
      → Emits (Place (c.constants ++ ms) (c.var_allocs)) a (length (c.out.code)) ws
      → length ms ≤ size a
      → Filled b c (ws ++ (logic_word stop ∷ [])) ms 0 [] r
      → Threads (Expr.logic stop a b) c r
  unfolding size
  logic_second ws ms {r} bound d h (filled vs more d' h' out) =
      threads (ws ++ (logic_word stop ∷ (length (c.out.code) + size a + 2 + size b) ∷ vs))
        (ms ++ more)
        (Emits.logic stop (Emits-more (c.constants) ms more (c.var_allocs) d) (
          subst (λ i. Emits (Place (c.constants ++ (ms ++ more)) (c.var_allocs)) b i vs)
            (omega (arith, length-append ws (logic_word stop ∷ []), Emits-length d)) d'))
        (omega (arith, length-append ms more))
        (subst (λ us. Outputs c us (ms ++ more) r)
          (rw (append_assoc ws (logic_word stop ∷ []), append-nil vs, target) refl) out)
    where
      target :
          word (length (c.out.code) + length (ws ++ (logic_word stop ∷ [])) + 1 + size b + 0 + 0)
          ≡ length (c.out.code) + size a + 2 + size b
      target = omega (arith, length-append ws (logic_word stop ∷ []), Emits-length d)

  pub logic-Threads :
      (m : Gen) {r : Outcome Context}
      → length (c.out.code) + size (Expr.logic stop a b) < 0x2000
      → Threads a c r
      → Anywhere b c (size (Expr.logic stop a b)) m
      → Threads
          (Expr.logic stop a b)
          c
          (Outcome.bind r (put (logic_word stop) line >> fill 0 line m))
  unfolding size
  logic-Threads m bound (threads ws ms d h out) f =
      Outputs-elim (λ r. Threads (Expr.logic stop a b) c r)
        (put (logic_word stop) line >> fill 0 line m) out
        (λ ps.
          Outputs-elim (λ r. Threads (Expr.logic stop a b) c r) (fill 0 line m)
            (put-grow (logic_word stop) line c ws ms ps)
            (λ ps'. logic_second ws ms bound d h (
              fill-Filled b c (ws ++ (logic_word stop ∷ [])) ms ps' 0 line [] m (λ ps''.
                Threads-Trailed (
                  f _ ms ps''
                    (omega (
                      arith,
                      length-append (ws ++ (logic_word stop ∷ [])) (0 ∷ []),
                      length-append ws (logic_word stop ∷ []),
                      Emits-length d,
                    ))
                    (omega arith))))))
