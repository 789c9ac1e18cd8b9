-- ===== src/Value/ConvertLaws.antt =====
-- What the conversions of libjarl/value.cpp guarantee.
use mathlib.Core.Bool.{not}
use jarl.Common.{◌≡◌, refl, ap, Bool, true, false, if◌then◌else◌, ℤ, pos, eqb_ℤ}
use jarl.Value.Data.{TypedValue, null, bool, int, float, ok, FloatOps}
use jarl.Value.Convert.{Scanner, bind, to_bool, test_bool, bool_not, flip}

-- A Bool or an Int, with the integer that it stands for.
pub data IsWhole : TypedValue → ℤ → Type 0 where
  a_bool : (b : Bool) → IsWhole (bool b) (if b then pos 1 else pos 0)
  an_int : (i : ℤ) → IsWhole (int i) i

not-not : (b : Bool) → not (not b) ≡ b
not-not true = refl
not-not false = refl

flip-bool : (b : Bool) → bind (flip (bool b)) flip ≡ ok (bool b)
flip-bool b = ap (λ (x : Bool). ok (bool x)) (not-not b)

module _ (ops : FloatOps) (scanner : Scanner) where
  -- The two forms of `toBool` agree: the value that the one stores is what the other tells, and they
  -- fail alike.
  pub to_bool-test_bool :
      (v : TypedValue) → to_bool ops scanner v ≡ bind (test_bool ops scanner v) (λ b. ok (bool b))
  unfolding to_bool test_bool
  to_bool-test_bool null = refl
  to_bool-test_bool (bool b) = refl
  to_bool-test_bool (int i) = refl
  to_bool-test_bool (float f) = refl
  to_bool-test_bool _ = refl

  -- `boolNot` gives the negation of the truth that the other form of `toBool` tells, whatever the type
  -- of the value, and fails where that does; done twice it is `toBool`.
  pub bool_not-test_bool :
      (v : TypedValue)
      → (bool_not ops scanner v ≡ bind (test_bool ops scanner v) (λ b. ok (bool (not b))))
        × (bind (bool_not ops scanner v) (λ w. bool_not ops scanner w) ≡ to_bool ops scanner v)
  unfolding bool_not to_bool test_bool
  bool_not-test_bool null = (refl, refl)
  bool_not-test_bool (bool b) = (refl, flip-bool b)
  bool_not-test_bool (int i) = (refl, flip-bool (not (eqb_ℤ i (pos 0))))
  bool_not-test_bool (float f) = (refl, flip-bool (ops.is_nonzero f))
  bool_not-test_bool _ = (refl, refl)
