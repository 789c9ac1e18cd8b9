-- ===== src/Correct/Turns.antt =====
-- The turns of the loop of `VM::execute` in libjarl/vm.cpp on the words of an expression.
use jarl.Common.{
  ℕ, suc, ◌+◌, ◌≤◌, ◌≡◌, refl, arith, Bool, true, false, List, [], ◌∷◌, some, ◌==◌, if◌then◌else◌,
  length, get_elem?, ◌∙◌,
}
use jarl.Value.Data.{TypedValue, bool, Result, ok, FloatOps}
use jarl.Value.Convert.{Scanner, bind, to_bool, test_bool}
use jarl.Value.Compare.{CmpMode}
use jarl.OpCodes.{OpCode, decode}
use jarl.Function.Code.{Function}
use jarl.Vm.State.{StackFrame, State, Fate, running, slot, settle, proceed, jump}
use jarl.Vm.Operations.{
  push, with_tag, same, do_arith_op, do_cmp_op, on_top, with_back, jump_if, jump_short, jmp,
}
use jarl.Vm.Step.{step, step_in, step_word, operation}
use jarl.Correct.Expr.{
  Expr, Env, Unary, Binary, eval, size, unary_of, binary_of, unary_word, binary_word, logic_word,
  truth_word, truth, number,
}
use jarl.Correct.Leads.{At, get_elem?_bound}
use jarl.Correct.Within.{Within, once}

-- The machine at the word `i` of a frame.
abbrev pub at_ : State → StackFrame → ℕ → List TypedValue → State
at_ st fr i s = record st { frame = some (record fr { ip = i }); stack = s }

settle-tag :
    (r : Result Bool) (k l : Bool → Fate)
    → ((b : Bool) → k b ≡ l b)
    → settle (bind r (λ b. ok (bool b))) (λ t. with_tag t k) ≡ settle r l
settle-tag (Result.ok b) k l h = h b
settle-tag (Result.error_jmp e) k l h = refl
settle-tag Result.undefined k l h = refl

module _ (ops : FloatOps) (scanner : Scanner) where
  -- The conversion in place and the one that only tells.
  to_bool-test :
      (v : TypedValue) → to_bool ops scanner v ≡ bind (test_bool ops scanner v) (λ b. ok (bool b))
  unfolding to_bool test_bool
  to_bool-test v = ground arith

module _ (ops : FloatOps) (scanner : Scanner) (functions : List Function) (st : State)
    (fr : StackFrame) (f : Function) where
  -- The turn on a word.
  pub turn :
      get_elem? functions (fr.func) ≡ some f
      → (i w : ℕ) (s : List TypedValue) (op : OpCode) → get_elem? (f.code) i ≡ some w
      → decode w ≡ some op
      → step ops scanner functions (at_ st fr i s)
        ≡ operation ops scanner functions op (at_ st fr i s) (record fr { ip = i }) f w
  unfolding step step_in step_word
  turn h i w s op e d = rw (h, not_end, e, d) refl
    where
      not_end : (i == length (f.code)) ≡ false
      not_end = ground (arith, get_elem?_bound (f.code) i w e)

  -- The words of an expression push its value, in turns that leave the stack under it as it is: no
  -- more turns than there are words, and no more values on the stack at a time.
  abbrev pub Pushes : Env → Expr → ℕ → List TypedValue → Type 0
  Pushes env e i s =
      (j n h : ℕ)
      → j ≡ i + size e
      → size e ≤ n
      → length s + size e ≤ h
      → Within ops scanner functions h n (at_ st fr i s)
          (settle (eval ops scanner env e) (λ v. running (at_ st fr j (v ∷ s))))

  module _ (found : get_elem? functions (fr.func) ≡ some f) where
    pub null_turn :
        (env : Env) (i : ℕ) (s : List TypedValue)
        → At (f.code) i (2 ∷ [])
        → Pushes env Expr.null i s
    unfolding eval size operation push
    null_turn env i s (e, _) j n h q k b =
        once ops scanner functions n (omega arith) (omega arith)
          (turn found i 2 s OpCode.push e (unfold decode in refl) ∙ rw q refl)

    pub inline_turn :
        (env : Env) (i n : ℕ) (s : List TypedValue)
        → At (f.code) i (0x9002 ∷ n ∷ [])
        → Pushes env (number n) i s
    unfolding eval size operation push
    inline_turn env i w s (e, (e', _)) j n h q k b =
        once ops scanner functions n (omega arith) (omega arith)
          (turn found i 0x9002 s OpCode.push e (unfold decode in refl) ∙ rw (e', q) refl)

    pub operand_turn :
        (env : Env) (x : Expr) (i w : ℕ) (s : List TypedValue) (v : TypedValue)
        → size x ≡ 2
        → eval ops scanner env x ≡ ok v
        → slot s (fr.bp + w) ≡ some v
        → At (f.code) i (0x8002 ∷ w ∷ [])
        → Pushes env x i s
    unfolding operation push
    operand_turn env x i w s v z o p (e, (e', _)) j n h q k b =
        once ops scanner functions n (omega arith) (omega arith)
          (turn found i 0x8002 s OpCode.push e (unfold decode in refl) ∙ rw (o, e', p, q, z) refl)

    pub truth_turn :
        (env : Env) (b : Bool) (i : ℕ) (s : List TypedValue)
        → At (f.code) i (truth_word b ∷ [])
        → Pushes env (truth b) i s
    unfolding eval size operation
    truth_turn env true i s (e, _) j n h q k b =
        once ops scanner functions n (omega arith) (omega arith)
          (turn found i 3 s OpCode.push_true e (unfold decode in refl) ∙ rw q refl)
    truth_turn env false i s (e, _) j n h q k b =
        once ops scanner functions n (omega arith) (omega arith)
          (turn found i 4 s OpCode.push_false e (unfold decode in refl) ∙ rw q refl)

    pub unary_turn :
        (u : Unary) (i : ℕ) (v : TypedValue) (s : List TypedValue)
        → get_elem? (f.code) i ≡ some (unary_word u)
        → step ops scanner functions (at_ st fr i (v ∷ s))
          ≡ settle (unary_of ops scanner u v) (λ v'. running (at_ st fr (i + 1) (v' ∷ s)))
    unfolding operation with_back unary_of
    unary_turn Unary.neg i v s e = turn found i 15 (v ∷ s) OpCode.neg e (unfold decode in refl)
    unary_turn Unary.not_ i v s e = turn found i 16 (v ∷ s) OpCode.not_ e (unfold decode in refl)

    pub binary_turn :
        (o : Binary) (i : ℕ) (v w : TypedValue) (s : List TypedValue)
        → get_elem? (f.code) i ≡ some (binary_word o)
        → step ops scanner functions (at_ st fr i (w ∷ v ∷ s))
          ≡ settle (binary_of ops scanner o v w) (λ v'. running (at_ st fr (i + 1) (v' ∷ s)))
    unfolding operation do_arith_op do_cmp_op on_top binary_of
    binary_turn Binary.add i v w s e =
        turn found i 8 (w ∷ v ∷ s) OpCode.add e (unfold decode in refl)
    binary_turn Binary.sub i v w s e =
        turn found i 9 (w ∷ v ∷ s) OpCode.sub e (unfold decode in refl)
    binary_turn Binary.mul i v w s e =
        turn found i 10 (w ∷ v ∷ s) OpCode.mul e (unfold decode in refl)
    binary_turn Binary.div i v w s e =
        turn found i 11 (w ∷ v ∷ s) OpCode.div e (unfold decode in refl)
    binary_turn Binary.mod_ i v w s e =
        turn found i 12 (w ∷ v ∷ s) OpCode.mod_ e (unfold decode in refl)
    binary_turn Binary.order i v w s e =
        turn found i 18 (w ∷ v ∷ s) OpCode.cmp e (unfold decode in refl)
    binary_turn (Binary.compare CmpMode.equal) i v w s e =
        turn found i 19 (w ∷ v ∷ s) OpCode.eq e (unfold decode in refl)
    binary_turn (Binary.compare CmpMode.not_equal) i v w s e =
        turn found i 20 (w ∷ v ∷ s) OpCode.neq e (unfold decode in refl)
    binary_turn (Binary.compare CmpMode.greater) i v w s e =
        turn found i 21 (w ∷ v ∷ s) OpCode.gt e (unfold decode in refl)
    binary_turn (Binary.compare CmpMode.less) i v w s e =
        turn found i 22 (w ∷ v ∷ s) OpCode.lt e (unfold decode in refl)
    binary_turn (Binary.compare CmpMode.greater_equal) i v w s e =
        turn found i 23 (w ∷ v ∷ s) OpCode.geq e (unfold decode in refl)
    binary_turn (Binary.compare CmpMode.less_equal) i v w s e =
        turn found i 24 (w ∷ v ∷ s) OpCode.leq e (unfold decode in refl)

    abbrev pub on_stop : Bool → ℕ → ℕ → List TypedValue → Bool → State
    on_stop stop i target s b =
        if same b stop then at_ st fr target (bool b ∷ s) else at_ st fr (i + 2) s

    abbrev pub on_branch : ℕ → ℕ → List TypedValue → Bool → State
    on_branch i target s b = if b then at_ st fr (i + 2) s else at_ st fr target s

    pub logic_turn :
        (stop : Bool) (i target : ℕ) (v : TypedValue) (s : List TypedValue)
        → get_elem? (f.code) i ≡ some (logic_word stop)
        → get_elem? (f.code) (suc i) ≡ some target
        → step ops scanner functions (at_ st fr i (v ∷ s))
          ≡ settle (test_bool ops scanner v) (λ b. running (on_stop stop i target s b))
    unfolding operation jump_short
    logic_turn false i target v s e e' =
        turn found i 0x8026 (v ∷ s) OpCode.jfsc e (unfold decode in refl)
        ∙ rw (e', to_bool-test ops scanner v)
            (settle-tag (test_bool ops scanner v)
              (λ b.
                if same b false
                then jump (at_ st fr i (v ∷ s)) (record fr { ip = i }) target (bool b ∷ s)
                else proceed (at_ st fr i (v ∷ s)) (record fr { ip = i }) 2 s)
              (λ b. running (on_stop false i target s b)) (elim [ true ↦ refl | false ↦ refl ]))
    logic_turn true i target v s e e' =
        turn found i 0x8025 (v ∷ s) OpCode.jtsc e (unfold decode in refl)
        ∙ rw (e', to_bool-test ops scanner v)
            (settle-tag (test_bool ops scanner v)
              (λ b.
                if same b true
                then jump (at_ st fr i (v ∷ s)) (record fr { ip = i }) target (bool b ∷ s)
                else proceed (at_ st fr i (v ∷ s)) (record fr { ip = i }) 2 s)
              (λ b. running (on_stop true i target s b)) (elim [ true ↦ refl | false ↦ refl ]))

    pub branch_turn :
        (i target : ℕ) (v : TypedValue) (s : List TypedValue)
        → get_elem? (f.code) i ≡ some 0x8024
        → get_elem? (f.code) (suc i) ≡ some target
        → step ops scanner functions (at_ st fr i (v ∷ s))
          ≡ settle (test_bool ops scanner v) (λ b. running (on_branch i target s b))
    unfolding operation jump_if
    branch_turn i target v s e e' =
        turn found i 0x8024 (v ∷ s) OpCode.jf e (unfold decode in refl)
        ∙ rw (e', to_bool-test ops scanner v)
            (settle-tag (test_bool ops scanner v)
              (λ b.
                if same b false
                then jump (at_ st fr i (v ∷ s)) (record fr { ip = i }) target s
                else proceed (at_ st fr i (v ∷ s)) (record fr { ip = i }) 2 s)
              (λ b. running (on_branch i target s b)) (elim [ true ↦ refl | false ↦ refl ]))

    pub jump_turn :
        (i target : ℕ) (s : List TypedValue)
        → get_elem? (f.code) i ≡ some 0x8022
        → get_elem? (f.code) (suc i) ≡ some target
        → step ops scanner functions (at_ st fr i s) ≡ running (at_ st fr target s)
    unfolding operation jmp
    jump_turn i target s e e' =
        turn found i 0x8022 s OpCode.jmp e (unfold decode in refl) ∙ rw e' refl
