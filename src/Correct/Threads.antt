-- ===== src/Correct/Threads.antt =====
-- `threadAST` of libjarl/code_generator.cpp on a tree that stands for an expression: it adds the
-- words of the expression to the code.
use jarl.Common.{
  ℕ, zero, suc, ◌+◌, ◌≤◌, ◌<◌, ◌≡◌, refl, arith, Bool, true, List, [], ◌∷◌, ◌++◌, some,
  if◌then◌else◌, length, get_elem?, Bool-cases, inl, inr, pos,
}
use jarl.Common.Outcome.{Outcome}
use jarl.Lexeme.{Float, Bytes}
use jarl.Value.Data.{TypedValue, int, string}
use jarl.CodeGenerator.Context.{VarAllocMap, Context, ◌>>◌, put, find_alloc, push_constant}
use jarl.CodeGenerator.Thread.{thread_identifier, is_short, int_word}
use jarl.Correct.Expr.{Expr, Emits, size, number, text, name, inline, operand}
use jarl.Correct.Outputs.{grow, Outputs, put-Outputs, Outputs-bind}
use jarl.Correct.Constants.{Pushed, pushed, push_constant-Pushed, equal_to-number, equal_to-text}

-- What a word after a `Push` stands for, before it is corrected: a constant or a variable.
pub data Place (cs : List TypedValue) (ms : VarAllocMap) : Expr → ℕ → Type 0 where
  stored_number :
      (n k : ℕ)
      → get_elem? cs k ≡ some (int (pos n))
      → k < 0x2000
      → Place cs ms (number n) (k + 0x4000)
  stored_text :
      (s : Bytes) (k : ℕ)
      → get_elem? cs k ≡ some (string s)
      → k < 0x2000
      → Place cs ms (text s) (k + 0x4000)
  variable : (x : Bytes) (w : ℕ) → find_alloc ms x ≡ some w → Place cs ms (name x) w

-- A property of every name in an expression.
abbrev pub AllNames : (Bytes → Type 0) → Expr → Type 0
AllNames P (Expr.name x) = P x
AllNames P (Expr.unary u e) = AllNames P e
AllNames P (Expr.binary o a b) = AllNames P a × AllNames P b
AllNames P (Expr.logic stop a b) = AllNames P a × AllNames P b
AllNames P (Expr.choose c a b) = AllNames P c × (AllNames P a × AllNames P b)
AllNames P _ = Unit

abbrev pub Known : VarAllocMap → Bytes → Type 0
Known ms x = (w : ℕ) × (find_alloc ms x ≡ some w)

-- The words of `e` are added, and not more constants than words.
pub data Threads (e : Expr) (c : Context) : Outcome Context → Type 0 where
  threads :
      {r : Outcome Context} (ws : List ℕ) (more : List TypedValue)
      → Emits (Place (c.constants ++ more) (c.var_allocs)) e (length (c.out.code)) ws
      → length more ≤ size e
      → Outputs c ws more r
      → Threads e c r

get_elem?-append :
    (xs ys : List TypedValue) (k : ℕ) (v : TypedValue)
    → get_elem? xs k ≡ some v
    → get_elem? (xs ++ ys) k ≡ some v
get_elem?-append [] ys k v h = absurd cc
get_elem?-append (x ∷ xs) ys zero v h = h
get_elem?-append (x ∷ xs) ys (suc k) v h = get_elem?-append xs ys k v h

pub Place-more :
    {cs : List TypedValue} {ms : VarAllocMap} (ys : List TypedValue) (e : Expr) (w : ℕ)
    → Place cs ms e w
    → Place (cs ++ ys) ms e w
Place-more ys _ _ (stored_number n k h b) = stored_number n k (get_elem?-append _ ys k _ h) b
Place-more ys _ _ (stored_text s k h b) = stored_text s k (get_elem?-append _ ys k _ h) b
Place-more ys _ _ (variable x w h) = variable x w h

pub Emits-map :
    {P Q : Expr → ℕ → Type 0}
    → ((e : Expr) (w : ℕ) → P e w → Q e w)
    → {e : Expr} {i : ℕ} {ws : List ℕ} → Emits P e i ws
    → Emits Q e i ws
Emits-map m Emits.null = Emits.null
Emits-map m (Emits.truth b) = Emits.truth b
Emits-map m (inline h) = inline h
Emits-map m (operand z h) = operand z (m _ _ h)
Emits-map m (Emits.unary u d) = Emits.unary u (Emits-map m d)
Emits-map m (Emits.binary o d d') = Emits.binary o (Emits-map m d) (Emits-map m d')
Emits-map m (Emits.logic stop d d') = Emits.logic stop (Emits-map m d) (Emits-map m d')
Emits-map m (Emits.choose d d' d'') =
    Emits.choose (Emits-map m d) (Emits-map m d') (Emits-map m d'')

module _ (float_equal : Float → Float → Bool) where
  null-Threads : (line : ℕ) (c : Context) → Threads Expr.null c (put 2 line c)
  unfolding size
  null-Threads line c = threads (2 ∷ []) [] Emits.null (omega arith) (put-Outputs 2 line c)

  pub number-Threads :
      (n line : ℕ) (c : Context)
      → length (c.constants) + 2 < 0x2000
      → Threads (number n) c (
          (if is_short (pos n)
              then put 0x9002 line >> put (int_word (pos n)) line
              else push_constant float_equal (int (pos n)) line)
            c)
  unfolding size
  number-Threads n line c b = elim (Bool-cases (is_short (pos n))) [
    | inl t ↦
        rw (t, short_word t)
          (threads (0x9002 ∷ n ∷ []) [] (inline (is_below t)) (omega arith) (
            Outputs-bind _ (put-Outputs 0x9002 line c)
              (λ ps. put-Outputs n line (grow c (0x9002 ∷ []) [] ps))))
    | inr f ↦ rw f (
        stored (
          push_constant-Pushed float_equal (int (pos n)) line c (equal_to-number float_equal n)
            (omega arith)))
  ]
    where
      is_below : is_short (pos n) ≡ true → n < 0x8000
      is_below t = ground arith

      short_word : is_short (pos n) ≡ true → int_word (pos n) ≡ n
      short_word t = let h = is_below t in omega arith

      stored : {r : Outcome Context} → Pushed float_equal c (int (pos n)) r → Threads (number n) c r
      stored (pushed more k e m u o) =
          threads (0x8002 ∷ (k + 0x4000) ∷ []) more (operand refl (stored_number n k e u))
            (omega arith) o

  pub text-Threads :
      (t : Bytes) (line : ℕ) (c : Context)
      → length (c.constants) + 2 < 0x2000
      → Threads (text t) c (push_constant float_equal (string t) line c)
  unfolding size
  text-Threads t line c b = stored (
      push_constant-Pushed float_equal (string t) line c (equal_to-text float_equal t)
        (omega arith))
    where
      stored : {r : Outcome Context} → Pushed float_equal c (string t) r → Threads (text t) c r
      stored (pushed more k e m u o) =
          threads (0x8002 ∷ (k + 0x4000) ∷ []) more (operand refl (stored_text t k e u))
            (omega arith) o

  pub identifier-Threads :
      (x : Bytes) (line : ℕ) (c : Context)
      → Known (c.var_allocs) x
      → Threads (name x) c (thread_identifier line x c)
  unfolding size thread_identifier
  identifier-Threads x line c (w, h) =
      threads (0x8002 ∷ w ∷ []) [] (operand refl (variable x w h)) (omega arith) (
        Outputs-bind _ (put-Outputs 0x8002 line c)
          (λ ps. rw h (put-Outputs w line (grow c (0x8002 ∷ []) [] ps))))
