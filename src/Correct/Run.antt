-- ===== src/Correct/Run.antt =====
-- The loop of `VM::execute` in libjarl/vm.cpp on the words of an expression: it pushes the value,
-- or ends in the error of the evaluation.
use jarl.Common.{
  ℕ, suc, ◌+◌, ◌≤◌, ◌≡◌, refl, arith, Bool, List, [], ◌∷◌, ◌++◌, some, get_elem?, length,
}
use jarl.Value.Data.{TypedValue, bool, Result, ok, FloatOps}
use jarl.Value.Convert.{Scanner, bind, test_bool}
use jarl.Function.Code.{Function}
use jarl.Vm.State.{StackFrame, State, running, slot, settle}
use jarl.Vm.Operations.{same}
use jarl.Vm.Step.{step}
use jarl.Correct.Expr.{
  Expr, Env, eval, size, Emits, unary_of, binary_of, unary_word, binary_word, logic_word, inline,
  operand,
}
use jarl.Correct.Within.{Within, once, Within-settle, Within-bind, Within-if}
use jarl.Correct.Leads.{At, At-two, At-append, slot-append}
use jarl.Correct.Emitted.{Emits-length, size-pos}
use jarl.Correct.Turns.{
  at_, Pushes, on_stop, on_branch, null_turn, inline_turn, operand_turn, truth_turn, unary_turn,
  binary_turn, logic_turn, branch_turn, jump_turn,
}

module _ (ops : FloatOps) (scanner : Scanner) (functions : List Function) (st : State)
    (fr : StackFrame) (f : Function) where
  module _ (found : get_elem? functions (fr.func) ≡ some f) where
    -- The value of `e` is pushed, and then worked on in at most `m` turns.
    after :
        (env : Env) (e : Expr) (i : ℕ) (s t : List TypedValue) (g : TypedValue → Result TypedValue)
        (j m n h : ℕ)
        → size e + m ≤ n
        → length s + size e ≤ h
        → Pushes ops scanner functions st fr f env e i s
        → ((v : TypedValue)
            → Within ops scanner functions h m
                (at_ st fr (i + size e) (v ∷ s))
                (settle (g v) (λ w. running (at_ st fr j (w ∷ t)))))
        → Within ops scanner functions h n
            (at_ st fr i s)
            (settle (bind (eval ops scanner env e) g) (λ w. running (at_ st fr j (w ∷ t))))
    after env e i s t g j m n h k b p l =
        Within-bind ops scanner functions m n (eval ops scanner env e)
          (λ v. at_ st fr (i + size e) (v ∷ s)) g _ k
          (p (i + size e) (size e) h refl (omega arith) b) l

    -- A test is made of the last value.
    tested :
        (i : ℕ) (v : TypedValue) (s t : List TypedValue) (g : Bool → State)
        (r : Bool → Result TypedValue) (j m h : ℕ)
        → suc (length s) ≤ h
        → step ops scanner functions (at_ st fr i (v ∷ s))
          ≡ settle (test_bool ops scanner v) (λ b. running (g b))
        → ((b : Bool)
            → Within ops scanner functions h m
                (g b)
                (settle (r b) (λ w. running (at_ st fr j (w ∷ t)))))
        → Within ops scanner functions h
            (suc m)
            (at_ st fr i (v ∷ s))
            (settle (bind (test_bool ops scanner v) r) (λ w. running (at_ st fr j (w ∷ t))))
    tested i v s t g r j m h b e k =
        Within-bind ops scanner functions m (suc m) (test_bool ops scanner v) g r _ (omega arith)
          (once ops scanner functions 1 (omega arith) b e) k

    -- The operands of the pushes: places in the frame, counted from `bp`, that hold the values.
    abbrev pub Holds : Env → List TypedValue → Expr → ℕ → Type 0
    Holds env s0 e w =
        (v : TypedValue) × (eval ops scanner env e ≡ ok v) × (slot s0 (fr.bp + w) ≡ some v)

    pub Emits-Pushes :
        (env : Env) (s0 : List TypedValue) {e : Expr} {i : ℕ} {ws : List ℕ}
        → Emits (Holds env s0) e i ws
        → At (f.code) i ws
        → (pre : List TypedValue) → Pushes ops scanner functions st fr f env e i (pre ++ s0)
    unfolding eval size
    Emits-Pushes env s0 Emits.null h pre j n top q lo hi =
        null_turn ops scanner functions st fr f found env _ _ h j n top q lo hi
    Emits-Pushes env s0 (Emits.truth x) h pre j n top q lo hi =
        truth_turn ops scanner functions st fr f found env x _ _ h j n top q lo hi
    Emits-Pushes env s0 (inline {n = w} _) h pre j n top q lo hi =
        inline_turn ops scanner functions st fr f found env _ w _ h j n top q lo hi
    Emits-Pushes env s0 (operand {w = w} {e = e} z (v, ev, sl)) h pre j n top q lo hi =
        operand_turn ops scanner functions st fr f found env e _ w _ v z ev
          (slot-append pre s0 (fr.bp + w) v sl) h j n top q lo hi
    Emits-Pushes env s0 (Emits.unary {i = i} {e = e} {ws = ws} u d) h pre j n top q lo hi =
        let parts = At-append (f.code) i (size e) ws (unary_word u ∷ []) (Emits-length d) h in
        let here : j ≡ i + size e + 1 = omega arith in
        after env e i (pre ++ s0) (pre ++ s0) (unary_of ops scanner u) j 1 n top (omega arith)
          (omega arith) (Emits-Pushes env s0 d parts.0 pre)
          (λ v. rw here (
            once ops scanner functions 1 (omega arith) (omega arith) (
              unary_turn ops scanner functions st fr f found u (i + size e) v (pre ++ s0)
                parts.1.0)))
    Emits-Pushes env s0 (Emits.binary {i = i} {a = a} {b = b} {ws = ws} {vs = vs} o d d') h pre j n
          top q lo hi =
        let s = pre ++ s0 in
        let parts =
          At-append (f.code) i (size a) ws (vs ++ (binary_word o ∷ [])) (Emits-length d) h in
        let parts' =
          At-append (f.code) (i + size a) (size b) vs (binary_word o ∷ []) (Emits-length d')
            parts.1 in
        let here : j ≡ i + size a + size b + 1 = omega arith in
        after env a i s s (λ v. bind (eval ops scanner env b) (λ w. binary_of ops scanner o v w)) j
          (size b + 1) n top (omega arith) (omega arith) (Emits-Pushes env s0 d parts.0 pre)
          (λ v.
            after env b (i + size a) (v ∷ s) s (binary_of ops scanner o v) j 1 (size b + 1) top
              (omega arith) (omega arith) (Emits-Pushes env s0 d' parts'.0 (v ∷ pre))
              (λ w. rw here (
                once ops scanner functions 1 (omega arith) (omega (arith, size-pos a)) (
                  binary_turn ops scanner functions st fr f found o (i + size a + size b) v w s
                    parts'.1.0))))
    Emits-Pushes env s0 (Emits.logic {i = i} {a = a} {b = b} {ws = ws} {vs = vs} stop d d') h pre j
          n top q lo hi =
        let s = pre ++ s0 in
        let target = i + size a + 2 + size b in
        let parts =
          At-append (f.code) i (size a) ws (logic_word stop ∷ target ∷ vs) (Emits-length d) h in
        let there : j ≡ target = omega arith in
        after env a i s s _ j (suc (size b)) n top (omega arith) (omega arith)
          (Emits-Pushes env s0 d parts.0 pre)
          (λ v.
            tested (i + size a) v s s
              (on_stop ops scanner functions st fr f found stop (i + size a) target s) _ j (size b)
              top (omega arith)
              (logic_turn ops scanner functions st fr f found stop (i + size a) target v s parts.1.0
                parts.1.1.0)
              (λ t.
                Within-if ops scanner functions (same t stop) (ok (bool t)) (eval ops scanner env b)
                  _ (rw there Within.here)
                  (Emits-Pushes env s0 d' (At-two (f.code) (i + size a) vs parts.1.1.1) pre j
                    (size b) top there (omega arith) (omega arith))))
    Emits-Pushes env s0
          (Emits.choose {i = i} {c = c} {a = a} {b = b} {ws = ws} {vs = vs} {us = us} d d' d'') h
          pre j n top q lo hi =
        let s = pre ++ s0 in
        let other = i + size c + 2 + size a + 2 in
        let parts =
          At-append (f.code) i (size c) ws
            (0x8024 ∷ other ∷ (vs ++ (0x8022 ∷ (other + size b) ∷ us))) (Emits-length d) h in
        let parts' =
          At-append (f.code) (i + size c + 2) (size a) vs (0x8022 ∷ (other + size b) ∷ us)
            (Emits-length d')
            (At-two (f.code) (i + size c) (vs ++ (0x8022 ∷ (other + size b) ∷ us)) parts.1.1.1) in
        let there : j ≡ other + size b = omega arith in
        after env c i s s _ j (suc (size a + 1 + size b)) n top (omega arith) (omega arith)
          (Emits-Pushes env s0 d parts.0 pre)
          (λ v.
            tested (i + size c) v s s
              (on_branch ops scanner functions st fr f found (i + size c) other s) _ j
              (size a + 1 + size b) top (omega arith)
              (branch_turn ops scanner functions st fr f found (i + size c) other v s parts.1.0
                parts.1.1.0)
              (λ t.
                Within-if ops scanner functions t (eval ops scanner env a) (eval ops scanner env b)
                  _
                  (Within-settle ops scanner functions (1 + size b) (size a + 1 + size b)
                    (eval ops scanner env a) (λ w. at_ st fr (i + size c + 2 + size a) (w ∷ s)) _
                    (omega arith)
                    (Emits-Pushes env s0 d' parts'.0 pre (i + size c + 2 + size a) (size a) top refl
                      (omega arith) (omega arith))
                    (λ w. rw there (
                      once ops scanner functions (1 + size b) (omega arith) (omega arith) (
                        jump_turn ops scanner functions st fr f found (i + size c + 2 + size a)
                          (other + size b) (w ∷ s) parts'.1.0 parts'.1.1.0))))
                  (Emits-Pushes env s0 d''
                    (At-two (f.code) (i + size c + 2 + size a) us parts'.1.1.1) pre j
                    (size a + 1 + size b) top there (omega arith) (omega arith))))
