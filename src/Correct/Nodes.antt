-- ===== src/Correct/Nodes.antt =====
-- The nodes of libjarl/code_generator.cpp that put the code of their children together: what follows
-- in a context that has grown, seen from the context before; and the nodes of the operators.
use mathlib.Core.Path.{subst}
use mathlib.Core.List.{append_assoc, append-nil}
use jarl.Common.{ℕ, ◌+◌, ◌≤◌, ◌≡◌, arith, List, [], ◌∷◌, ◌++◌, length, length-append}
use jarl.Common.Outcome
use jarl.Common.Outcome.{Outcome, ok}
use jarl.Value.Data.{TypedValue}
use jarl.Function.Lines.{Positions}
use jarl.CodeGenerator.Context.{VarAllocMap, Context, Gen, ◌>>◌, put}
use jarl.Correct.Expr.{Expr, Unary, Binary, Emits, size, unary_word, binary_word}
use jarl.Correct.Emitted.{Emits-length}
use jarl.Correct.Outputs.{grow, Outputs, outputs, put-Outputs, Outputs-bind, Outputs-regroup}
use jarl.Correct.Threads.{Place, Place-more, Threads, threads, Emits-map}

-- The code of `e` as seen from a context with `n` words less and other constants.
pub data Later (e : Expr) (c c' : Context) (n : ℕ) (ms : List TypedValue)
    : Outcome Context → Type 0 where
  later :
      {r : Outcome Context} (ws : List ℕ) (more : List TypedValue)
      → Emits (Place (c.constants ++ (ms ++ more)) (c.var_allocs)) e (length (c.out.code) + n) ws
      → length more ≤ size e
      → Outputs c' ws more r
      → Later e c c' n ms r

pub shift_Emits :
    (c : Context) (xs : List ℕ) (ms more : List TypedValue) (i : ℕ) {e : Expr} {ws : List ℕ}
    → length (c.out.code) + length xs ≡ i
    → Emits (Place ((c.constants ++ ms) ++ more) (c.var_allocs)) e (length (c.out.code ++ xs)) ws
    → Emits (Place (c.constants ++ (ms ++ more)) (c.var_allocs)) e i ws
shift_Emits c xs ms more i {e} {ws} q d =
    subst (λ j. Emits (Place (c.constants ++ (ms ++ more)) (c.var_allocs)) e j ws)
      (omega (arith, length-append (c.out.code) xs))
      (subst (λ cs. Emits (Place cs (c.var_allocs)) e (length (c.out.code ++ xs)) ws)
        (append_assoc (c.constants) ms more) d)

pub Threads-Later :
    (e : Expr) (c : Context) (ws : List ℕ) (ms : List TypedValue) (ps : Positions) (n : ℕ)
    {r : Outcome Context}
    → length ws ≡ n
    → Threads e (grow c ws ms ps) r
    → Later e c (grow c ws ms ps) n ms r
Threads-Later e c ws ms ps n q (threads vs more d b o) =
    later vs more (shift_Emits c ws ms more _ (omega arith) d) b o

-- More constants do not matter.
pub Emits-more :
    (cs ms ns : List TypedValue) (allocs : VarAllocMap) {e : Expr} {i : ℕ} {ws : List ℕ}
    → Emits (Place (cs ++ ms) allocs) e i ws
    → Emits (Place (cs ++ (ms ++ ns)) allocs) e i ws
Emits-more cs ms ns allocs {e} {i} {ws} d =
    subst (λ ds. Emits (Place ds allocs) e i ws) (append_assoc cs ms ns)
      (Emits-map (Place-more ns) d)

-- A step on a context that has grown.
pub Outputs-elim {ℓ} :
    {T : Type 0} {c : Context} {ws : List ℕ} {ms : List TypedValue} {r : Outcome Context}
    (P : Outcome T → Type ℓ) (k : Context → Outcome T)
    → Outputs c ws ms r
    → ((ps : Positions) → P (k (grow c ws ms ps)))
    → P (Outcome.bind r k)
Outputs-elim P k (outputs ps) h = h ps

pub put-grow :
    (op line : ℕ) (c : Context) (ws : List ℕ) (ms : List TypedValue) (ps : Positions)
    → Outputs c (ws ++ (op ∷ [])) ms (put op line (grow c ws ms ps))
put-grow op line c ws ms ps =
    subst (λ ns. Outputs c (ws ++ (op ∷ [])) ns (put op line (grow c ws ms ps))) (append-nil ms)
      (Outputs-regroup ws ms ps (put-Outputs op line (grow c ws ms ps)))

pub unary-Threads :
    (u : Unary) (e : Expr) (c : Context) (line : ℕ) {r : Outcome Context}
    → Threads e c r
    → Threads (Expr.unary u e) c (Outcome.bind r (put (unary_word u) line))
unfolding size
unary-Threads u e c line {r} (threads ws more d b o) =
    threads (ws ++ (unary_word u ∷ [])) more (Emits.unary u d) (omega arith) (
      subst
        (λ ms. Outputs c (ws ++ (unary_word u ∷ [])) ms (Outcome.bind r (put (unary_word u) line)))
        (append-nil more)
        (Outputs-bind _ o (λ ps. put-Outputs (unary_word u) line (grow c ws more ps))))

-- A child is generated in a context that has grown, within the size of the whole.
abbrev pub Anywhere : Expr → Context → ℕ → Gen → Type 0
Anywhere e c s m =
    (xs : List ℕ) (ms : List TypedValue) (ps : Positions)
    → length xs + size e ≤ s
    → length ms + size e ≤ s
    → Threads e (grow c xs ms ps) (m (grow c xs ms ps))

module _ (o : Binary) (a b : Expr) (c : Context) (line : ℕ) where
  binary_second :
      (ws : List ℕ) (ms : List TypedValue) (ps : Positions) {r : Outcome Context}
      → Emits (Place (c.constants ++ ms) (c.var_allocs)) a (length (c.out.code)) ws
      → length ms ≤ size a
      → Later b c (grow c ws ms ps) (size a) ms r
      → Threads (Expr.binary o a b) c (Outcome.bind r (put (binary_word o) line))
  unfolding size
  binary_second ws ms ps {r} d h (later vs more d' h' out) =
      threads (ws ++ (vs ++ (binary_word o ∷ []))) (ms ++ more)
        (Emits.binary o (Emits-more (c.constants) ms more (c.var_allocs) d) d')
        (omega (arith, length-append ms more))
        (Outputs-regroup ws ms ps (
          subst
            (λ ns.
              Outputs (grow c ws ms ps) (vs ++ (binary_word o ∷ [])) ns
                (Outcome.bind r (put (binary_word o) line)))
            (append-nil more) (Outputs-bind _ out (λ ps'. put-Outputs (binary_word o) line _))))

  pub binary-Threads :
      (k : Gen) {r : Outcome Context}
      → Threads a c r
      → Anywhere b c (size (Expr.binary o a b)) k
      → Threads (Expr.binary o a b) c (Outcome.bind r (k >> put (binary_word o) line))
  unfolding size
  binary-Threads k (threads ws ms d h out) f =
      Outputs-elim (λ r. Threads (Expr.binary o a b) c r) (k >> put (binary_word o) line) out
        (λ ps. binary_second ws ms ps d h (
          Threads-Later b c ws ms ps (size a) (Emits-length d)
            (f ws ms ps (omega (arith, Emits-length d)) (omega arith))))
