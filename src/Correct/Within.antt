-- ===== src/Correct/Within.antt =====
-- What the loop of `VM::execute` in libjarl/vm.cpp comes to in a number of turns, on stacks of a
-- bounded height.
use jarl.Common.{
  ℕ, zero, suc, ◌+◌, ◌≤◌, ◌<◌, ◌≡◌, refl, arith, Bool, true, false, List, length, if◌then◌else◌,
}
use jarl.Value.Data.{TypedValue, Result, FloatOps}
use jarl.Value.Convert.{Scanner, bind}
use jarl.Function.Code.{Function}
use jarl.Vm.State.{State, Fate, running, finished, settle}
use jarl.Vm.Step.{step, run}
use jarl.Correct.Leads.{Leads}

-- The number of values on the stack where a turn has ended.
abbrev pub height : Fate → ℕ
height (running st) = length (st.stack)
height (finished st) = length (st.stack)
height _ = 0

-- The loop does not go on.
abbrev pub IsOver : Fate → Type 0
IsOver (running st) = ⊥
IsOver _ = Unit

module _ (ops : FloatOps) (scanner : Scanner) (functions : List Function) where
  -- In at most `n` turns, none of which begins with more than `h` values on the stack.
  pub data Within (h : ℕ) : ℕ → State → Fate → Type 0 where
    here : {n : ℕ} {st : State} → Within h n st (running st)
    next :
        {n : ℕ} {st u : State} {r : Fate}
        → length (st.stack) ≤ h
        → step ops scanner functions st ≡ running u
        → Within h n u r
        → Within h (suc n) st r
    last :
        {n : ℕ} {st : State} {r : Fate}
        → length (st.stack) ≤ h
        → step ops scanner functions st ≡ r
        → Within h (suc n) st r

  pub once :
      {h : ℕ} (n : ℕ) {st : State} {r : Fate}
      → 0 < n
      → length (st.stack) ≤ h
      → step ops scanner functions st ≡ r
      → Within h n st r
  once zero z b e = absurd (omega arith)
  once (suc n) z b e = last b e

  more_turns : {h n : ℕ} (m : ℕ) {st : State} {r : Fate} → n ≤ m → Within h n st r → Within h m st r
  more_turns m q here = here
  more_turns zero q (next b e w) = absurd (omega arith)
  more_turns (suc m) q (next b e w) = next b e (more_turns m (omega arith) w)
  more_turns zero q (last b e) = absurd (omega arith)
  more_turns (suc m) q (last b e) = last b e

  pub more_values :
      {h h' n : ℕ} {st : State} {r : Fate} → h ≤ h' → Within h n st r → Within h' n st r
  more_values q here = here
  more_values q (next b e w) = next (omega arith) e (more_values q w)
  more_values q (last b e) = last (omega arith) e

  pub Within-trans :
      {h n : ℕ} (m k : ℕ) {st u : State} {r : Fate}
      → n + m ≤ k
      → Within h n st (running u)
      → Within h m u r
      → Within h k st r
  Within-trans m k q here w = more_turns k (omega arith) w
  Within-trans m zero q (next b e l) w = absurd (omega arith)
  Within-trans m (suc k) q (next b e l) w = next b e (Within-trans m k (omega arith) l w)
  Within-trans m zero q (last b e) w = absurd (omega arith)
  Within-trans m (suc k) q (last b e) w = next b e (more_turns k (omega arith) w)

  -- What is done with a result that the machine comes to.
  pub Within-settle :
      {h n : ℕ} (m k : ℕ) {T : Type 0} {st : State} (x : Result T) (g : T → State) (f : T → Fate)
      → n + m ≤ k
      → Within h n st (settle x (λ v. running (g v)))
      → ((v : T) → Within h m (g v) (f v))
      → Within h k st (settle x f)
  Within-settle m k (Result.ok v) g f q l w = Within-trans m k q l (w v)
  Within-settle m k (Result.error_jmp e) g f q l w = more_turns k (omega arith) l
  Within-settle m k Result.undefined g f q l w = more_turns k (omega arith) l

  pub Within-bind :
      {h n : ℕ} (m k : ℕ) {T : Type 0} {st : State} (x : Result T) (g : T → State)
      (f : T → Result TypedValue) (r : TypedValue → Fate)
      → n + m ≤ k
      → Within h n st (settle x (λ v. running (g v)))
      → ((v : T) → Within h m (g v) (settle (f v) r))
      → Within h k st (settle (bind x f) r)
  Within-bind m k (Result.ok v) g f r q l w = Within-trans m k q l (w v)
  Within-bind m k (Result.error_jmp e) g f r q l w = more_turns k (omega arith) l
  Within-bind m k Result.undefined g f r q l w = more_turns k (omega arith) l

  pub Within-if :
      {h n : ℕ} (c : Bool) {u v : State} (x y : Result TypedValue) (r : TypedValue → Fate)
      → Within h n u (settle x r)
      → Within h n v (settle y r)
      → Within h n (if c then u else v) (settle (if c then x else y) r)
  Within-if true x y r l m = l
  Within-if false x y r l m = m

  pub Within-Leads :
      {h n : ℕ} {st : State} {r : Fate} → Within h n st r → Leads ops scanner functions st r
  Within-Leads here = Leads.here
  Within-Leads (next b e w) = Leads.next e (Within-Leads w)
  Within-Leads (last b e) = Leads.last e

  run-IsOver : (n : ℕ) (r : Fate) → IsOver r → run ops scanner functions n r ≡ r
  unfolding run
  run-IsOver zero r o = refl
  run-IsOver (suc n) (running st) o = absurd o
  run-IsOver (suc n) _ o = refl

  -- The bounds are those of `run`: the number of turns is enough, and after any number of turns the
  -- stack is no higher.
  pub Within-run :
      {h n : ℕ} {st : State} {r : Fate}
      → Within h n st r
      → IsOver r
      → run ops scanner functions n (running st) ≡ r
  unfolding run
  Within-run here o = absurd o
  Within-run (next b e w) o = rw e (Within-run w o)
  Within-run (last {n = n} b e) o = rw e (run-IsOver n _ o)

  pub height-run :
      {h n : ℕ} {st : State} {r : Fate} (turns : ℕ)
      → Within h n st r
      → IsOver r
      → height r ≤ h
      → height (run ops scanner functions turns (running st)) ≤ h
  unfolding run
  height-run turns here o q = absurd o
  height-run zero (next b e w) o q = b
  height-run zero (last b e) o q = b
  height-run (suc turns) (next b e w) o q = rw e (height-run turns w o q)
  height-run (suc turns) (last {r = r} b e) o q = rw (e, run-IsOver turns r o) q
