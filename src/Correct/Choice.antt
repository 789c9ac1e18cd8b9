-- ===== src/Correct/Choice.antt =====
-- The code of an `if` with both of its branches in libjarl/code_generator.cpp.
use mathlib.Core.Path.{subst}
use mathlib.Core.List.{append_assoc, append-nil}
use jarl.Common.{ℕ, ◌+◌, ◌≤◌, ◌<◌, ◌≡◌, refl, arith, List, [], ◌∷◌, ◌++◌, length, length-append}
use jarl.Common.Outcome
use jarl.Common.Outcome.{Outcome, ok}
use jarl.Value.Data.{TypedValue}
use jarl.OpCodes.{word}
use jarl.CodeGenerator.Context.{Context, Gen, ◌>>◌, skip, put}
use jarl.CodeGenerator.Branch.{fill}
use jarl.Correct.Expr.{Expr, Emits, size}
use jarl.Correct.Emitted.{Emits-length}
use jarl.Correct.Outputs.{Outputs, outputs}
use jarl.Correct.Threads.{Place, Threads, threads}
use jarl.Correct.Nodes.{Emits-more, Outputs-elim, put-grow, Anywhere}
use jarl.Correct.Jumps.{Trailed, Filled, filled, Threads-Trailed, put-Trailed, fill-Filled}

skip-Trailed :
    {e : Expr} {c : Context} {r : Outcome Context}
    → Threads e c r
    → Trailed e c [] (Outcome.bind r skip)
skip-Trailed {e} {c} (threads ws more d b o) =
    Threads-Trailed
      (threads ws more d b (Outputs-elim (λ r. Outputs c ws more r) skip o (λ ps. outputs ps)))

module _ (e a b : Expr) (c : Context) (line : ℕ) where
  abbrev whole : ℕ
  whole = size e + size a + size b + 4

  abbrev other : ℕ
  other = length (c.out.code) + size e + 2 + size a + 2

  -- The words of the test, of the first branch and of the second, with the two jumps.
  choose_third :
      (ws vs : List ℕ) (ms ns : List TypedValue) {r : Outcome Context}
      → length (c.out.code) + whole < 0x2000
      → Emits (Place (c.constants ++ ms) (c.var_allocs)) e (length (c.out.code)) ws
      → length ms ≤ size e
      → Emits
          (Place (c.constants ++ (ms ++ ns)) (c.var_allocs))
          a
          (length (c.out.code) + size e + 2)
          vs
      → length ns ≤ size a
      → Filled b c
          (ws ++ (0x8024 ∷ (length (c.out.code) + size e + 2 + size a + 2) ∷ (vs ++ (0x8022 ∷ []))))
          (ms ++ ns)
          0
          []
          r
      → Threads (Expr.choose e a b) c r
  unfolding size
  choose_third ws vs ms ns {r} bound d h d' h' (filled us more d'' h'' out) =
      threads (ws ++ (0x8024 ∷ other ∷ (vs ++ (0x8022 ∷ (other + size b) ∷ us))))
        ((ms ++ ns) ++ more)
        (Emits.choose
          (Emits-more (c.constants) (ms ++ ns) more (c.var_allocs)
            (Emits-more (c.constants) ms ns (c.var_allocs) d))
          (Emits-more (c.constants) (ms ++ ns) more (c.var_allocs) d')
          (subst (λ i. Emits (Place (c.constants ++ ((ms ++ ns) ++ more)) (c.var_allocs)) b i us)
            (omega (arith, first_length)) d''))
        (omega (arith, length-append (ms ++ ns) more, length-append ms ns))
        (subst (λ us. Outputs c us ((ms ++ ns) ++ more) r)
          (rw
            (
              append_assoc ws (0x8024 ∷ other ∷ (vs ++ (0x8022 ∷ []))),
              append_assoc vs (0x8022 ∷ []),
              append-nil us,
              target,
            )
            refl)
          out)
    where
      first_length :
          length (ws ++ (0x8024 ∷ other ∷ (vs ++ (0x8022 ∷ [])))) ≡ size e + 2 + size a + 1
      first_length = omega (
        arith,
        length-append ws (0x8024 ∷ other ∷ (vs ++ (0x8022 ∷ []))),
        length-append vs (0x8022 ∷ []),
        Emits-length d,
        Emits-length d',
      )

      target :
          word (
            length (c.out.code)
            + length (ws ++ (0x8024 ∷ other ∷ (vs ++ (0x8022 ∷ []))))
            + 1
            + size b
            + 0
            + 0)
          ≡ other + size b
      target = omega (arith, first_length)

  choose_second :
      (mb : Gen) (ws : List ℕ) (ms : List TypedValue) {r : Outcome Context}
      → length (c.out.code) + whole < 0x2000
      → Emits (Place (c.constants ++ ms) (c.var_allocs)) e (length (c.out.code)) ws
      → length ms ≤ size e
      → Filled a c (ws ++ (0x8024 ∷ [])) ms 1 (0x8022 ∷ []) r
      → Anywhere b c whole mb
      → Threads (Expr.choose e a b) c (Outcome.bind r (fill 0 line (mb >> skip)))
  choose_second mb ws ms {r} bound d h (filled vs more d' h' out) f =
      Outputs-elim (λ r. Threads (Expr.choose e a b) c r) (fill 0 line (mb >> skip))
        (subst (λ us. Outputs c us (ms ++ more) r) (rw (append_assoc ws (0x8024 ∷ []), target) refl)
          out)
        (λ ps.
          choose_third ws vs ms more bound d h
            (subst (λ i. Emits (Place (c.constants ++ (ms ++ more)) (c.var_allocs)) a i vs)
              (omega (arith, length-append ws (0x8024 ∷ []), Emits-length d)) d')
            h'
            (fill-Filled b c (ws ++ (0x8024 ∷ other ∷ (vs ++ (0x8022 ∷ [])))) (ms ++ more) ps 0 line
              [] (mb >> skip)
              (λ ps'. skip-Trailed (
                f _ (ms ++ more) ps'
                  (omega (
                    arith,
                    length-append (ws ++ (0x8024 ∷ other ∷ (vs ++ (0x8022 ∷ [])))) (0 ∷ []),
                    length-append ws (0x8024 ∷ other ∷ (vs ++ (0x8022 ∷ []))),
                    length-append vs (0x8022 ∷ []),
                    Emits-length d,
                    Emits-length d',
                  ))
                  (omega (arith, length-append ms more))))))
    where
      target :
          word (length (c.out.code) + length (ws ++ (0x8024 ∷ [])) + 1 + size a + 1 + 1) ≡ other
      target = omega (arith, length-append ws (0x8024 ∷ []), Emits-length d)

  pub choose-Threads :
      (ma mb : Gen) {r : Outcome Context}
      → length (c.out.code) + size (Expr.choose e a b) < 0x2000
      → Threads e c r
      → Anywhere a c (size (Expr.choose e a b)) ma
      → Anywhere b c (size (Expr.choose e a b)) mb
      → Threads (Expr.choose e a b) c (
          Outcome.bind r (
            put 0x8024 line
            >> fill 1 line (ma >> (skip >> put 0x8022 line))
            >> fill 0 line (mb >> skip)))
  unfolding size
  choose-Threads ma mb bound (threads ws ms d h out) f g =
      Outputs-elim (λ r. Threads (Expr.choose e a b) c r)
        (put 0x8024 line
          >> fill 1 line (ma >> (skip >> put 0x8022 line))
          >> fill 0 line (mb >> skip))
        out
        (λ ps.
          choose_second mb ws ms bound d h
            (Outputs-elim (λ r. Filled a c (ws ++ (0x8024 ∷ [])) ms 1 (0x8022 ∷ []) r)
              (fill 1 line (ma >> (skip >> put 0x8022 line))) (put-grow 0x8024 line c ws ms ps)
              (λ ps'.
                fill-Filled a c (ws ++ (0x8024 ∷ [])) ms ps' 1 line (0x8022 ∷ [])
                  (ma >> (skip >> put 0x8022 line))
                  (λ ps''. put-Trailed 0x8022 line (
                    f _ ms ps''
                      (omega (
                        arith,
                        length-append (ws ++ (0x8024 ∷ [])) (0 ∷ []),
                        length-append ws (0x8024 ∷ []),
                        Emits-length d,
                      ))
                      (omega arith)))))
            g)
