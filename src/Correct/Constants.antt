-- ===== src/Correct/Constants.antt =====
-- The constants of libjarl/code_generator.cpp: where the value of a literal stands after its
-- `emplace`, and the words that push it.
use mathlib.Core.Path.{subst}
use mathlib.Core.List.{append-nil}
use mathlib.Core.Bool.{false≢true}
use mathlib.Core.Option
use jarl.Common.{
  ℕ, suc, ◌+◌, ◌%◌, ◌/◌, ◌≤◌, ◌<◌, ◌≡◌, refl, arith, Bool, true, List, [], ◌∷◌, ◌++◌, Option, none,
  some, length, get_elem?, get_elem?-push_at, take-length, ap, Bool-cases, inl, inr, eqb_ℤ, ℤ, pos,
  negsuc, sym, ◌^◌,
}
use jarl.Common.Outcome
use jarl.Common.Outcome.{Outcome, ok}
use jarl.Lexeme.{Float, Bytes}
use jarl.Value.Data.{TypedValue, int, string}
use jarl.Containers.VectorSet.{index_of, emplace}
use jarl.OpCodes.{word, with_flag}
use jarl.CodeGenerator.Names.{names}
use jarl.CodeGenerator.Context.{Context, put, equal_to, push_constant}
use jarl.Correct.Outputs.{grow, Outputs, outputs, Outputs-regroup, put-Outputs}

-- What `emplace` gives: the values that it adds, at most one, and where the value stands.
pub data Emplaced (v : TypedValue) (cs : List TypedValue) : List TypedValue × ℕ → Type 0 where
  emplaced :
      (more : List TypedValue) (k : ℕ)
      → get_elem? (cs ++ more) k ≡ some v
      → length more ≤ 1
      → k ≤ length cs
      → Emplaced v cs (cs ++ more, k)

data Looked (v : TypedValue) (cs : List TypedValue) : Option ℕ → Type 0 where
  missing : Looked v cs none
  found : {i : ℕ} → get_elem? cs i ≡ some v → i < length cs → Looked v cs (some i)

module _ (comp : TypedValue → TypedValue → Bool) (v : TypedValue) where
  Looked-later :
      (x : TypedValue) (xs : List TypedValue) (o : Option ℕ)
      → Looked v xs o
      → Looked v (x ∷ xs) (Option.map (λ i. suc i) o)
  Looked-later x xs none missing = missing
  Looked-later x xs (some i) (found e b) = found e (omega arith)

  index_of-Looked :
      ((x : TypedValue) → comp x v ≡ true → x ≡ v)
      → (cs : List TypedValue) → Looked v cs (index_of comp cs v)
  unfolding index_of
  index_of-Looked h [] = missing
  index_of-Looked h (x ∷ xs) = elim (Bool-cases (comp x v)) [
    | inl t ↦ rw t (found (rw (h x t) refl) (omega arith))
    | inr f ↦ rw f (Looked-later x xs (index_of comp xs v) (index_of-Looked h xs))
  ]

  Looked-Emplaced :
      (cs : List TypedValue) (o : Option ℕ)
      → Looked v cs o
      → Emplaced v cs (elim o [ none ↦ (cs ++ (v ∷ []), length cs) | some i ↦ (cs, i) ])
  Looked-Emplaced cs none missing =
      emplaced (v ∷ []) (length cs) (get_elem?-push_at cs v) (omega arith) (omega arith)
  Looked-Emplaced cs (some i) (found e b) =
      subst (λ ds. Emplaced v cs (ds, i)) (append-nil cs)
        (emplaced [] i (rw (append-nil cs) e) (omega arith) (omega arith))

  emplace-Emplaced :
      ((x : TypedValue) → comp x v ≡ true → x ≡ v)
      → (cs : List TypedValue) → Emplaced v cs (emplace comp v cs)
  unfolding emplace
  emplace-Emplaced h cs =
      subst
        (λ l.
          Emplaced v cs
            (elim (index_of comp l v) [ none ↦ (cs ++ (v ∷ []), length cs) | some i ↦ (l, i) ]))
        (sym (take-length cs (v ∷ [])))
        (Looked-Emplaced cs (index_of comp cs v) (index_of-Looked h cs))

module _ (float_equal : Float → Float → Bool) where
  pub equal_to-number :
      (n : ℕ) (x : TypedValue) → equal_to float_equal x (int (pos n)) ≡ true → x ≡ int (pos n)
  unfolding equal_to
  equal_to-number n (int i) h = ap {B = TypedValue} (λ j. int j) (eqb_pos i n h)
    where
      eqb_pos : (i : ℤ) (n : ℕ) → eqb_ℤ i (pos n) ≡ true → i ≡ pos n
      eqb_pos (pos m) n h = ground arith
      eqb_pos (negsuc m) n h = ground arith
  equal_to-number n _ h = absurd (false≢true h)

  pub equal_to-text :
      (s : Bytes) (x : TypedValue) → equal_to float_equal x (string s) ≡ true → x ≡ string s
  unfolding equal_to
  equal_to-text s (string t) h = ap {B = TypedValue} (λ b. string b) ((names.lawful t s).0 h)
  equal_to-text s _ h = absurd (false≢true h)

  -- An index of a constant with the bit of the constants.
  pub const_word : (k : ℕ) → k < 0x2000 → word (with_flag k 0x4000) ≡ k + 0x4000
  const_word k h = rw (no_bit, in_word) refl
    where
      no_bit : k / 0x4000 ≡ 0
      no_bit = omega arith

      in_word : (k + 0x4000) % 2 ^ 16 ≡ k + 0x4000
      in_word = omega arith

  -- The two words of a push, with the constants that are put in between.
  set_constants-Outputs :
      (w line : ℕ) (c : Context) (more : List TypedValue) {r : Outcome Context}
      → Outputs c (0x8002 ∷ []) [] r
      → Outputs c (0x8002 ∷ w ∷ []) more (
          Outcome.bind r
            (λ c'. Outcome.bind (ok (record c' { constants = c.constants ++ more })) (put w line)))
  set_constants-Outputs w line c more (outputs ps) =
      subst (λ ms. Outputs c (0x8002 ∷ w ∷ []) ms (put w line (grow c (0x8002 ∷ []) more ps)))
        (append-nil more)
        (Outputs-regroup (0x8002 ∷ []) more ps (put-Outputs w line (grow c (0x8002 ∷ []) more ps)))

  -- A constant is at an index, and the code pushes that index with the bit of the constants.
  pub data Pushed (c : Context) (v : TypedValue) : Outcome Context → Type 0 where
    pushed :
        {r : Outcome Context} (more : List TypedValue) (k : ℕ)
        → get_elem? (c.constants ++ more) k ≡ some v
        → length more ≤ 1
        → k < 0x2000
        → Outputs c (0x8002 ∷ (k + 0x4000) ∷ []) more r
        → Pushed c v r

  pub push_constant-Pushed :
      (v : TypedValue) (line : ℕ) (c : Context)
      → ((x : TypedValue) → equal_to float_equal x v ≡ true → x ≡ v)
      → length (c.constants) < 0x2000
      → Pushed c v (push_constant float_equal v line c)
  unfolding push_constant
  push_constant-Pushed v line c h b =
      placed (emplace-Emplaced (equal_to float_equal) v h (c.constants))
    where
      placed :
          {r : List TypedValue × ℕ}
          → Emplaced v (c.constants) r
          → Pushed c v (
              Outcome.bind (put 0x8002 line c) (λ c'.
                Outcome.bind
                  (ok (record c' { constants = r.0 }))
                  (put (word (with_flag (r.1) 0x4000)) line)))
      placed (emplaced more k e m u) = pushed more k e m (omega arith) (
          rw (const_word k (omega arith))
            (set_constants-Outputs (k + 0x4000) line c more (put-Outputs 0x8002 line c)))
