-- ===== src/Common/Outcome.antt =====
-- The outcome of a run of the program's code, and postconditions on it.
use mathlib.Core.Path.{◌≡◌, refl}
use mathlib.Core.Bool.{Bool, true, false}
use jarl.Common.Tests.{if◌then◌else◌}

-- `fault` is a failed `assert` or a read of what does not exist; `out_of_fuel` has no counterpart
-- in the program.
pub data Outcome {ℓ} (A : Type ℓ) : Type ℓ where
  ok : A → Outcome A
  fault out_of_fuel : Outcome A

abbrev pub bind {ℓ κ} : {A : Type ℓ} {B : Type κ} → Outcome A → (A → Outcome B) → Outcome B
bind (ok a) f = f a
bind fault f = fault
bind out_of_fuel f = out_of_fuel

-- The run ends with a value, and `P` holds of it.
pub data Returns {ℓ κ} {A : Type ℓ} (P : A → Type κ) : Outcome A → Type (ℓ ⊔ κ) where
  returns : {a : A} → P a → Returns P (ok a)

module _ {ℓ κ} {A : Type ℓ} {P : A → Type κ} where
  pub Returns-ok : {r : Outcome A} → Returns P r → (a : A) × (r ≡ ok a) × P a
  Returns-ok (returns {a} h) = (a, refl, h)

  pub Returns-if :
      (b : Bool) {x y : Outcome A}
      → (b ≡ true → Returns P x)
      → (b ≡ false → Returns P y)
      → Returns P (if b then x else y)
  Returns-if true hx hy = hx refl
  Returns-if false hx hy = hy refl

  pub Returns-bind {ℓ' κ'} :
      {B : Type ℓ'} {Q : B → Type κ'} {r : Outcome A} {f : A → Outcome B}
      → Returns P r
      → ((a : A) → P a → Returns Q (f a))
      → Returns Q (bind r f)
  Returns-bind (returns {a} h) k = k a h

  pub Returns-map {κ'} :
      {Q : A → Type κ'} {r : Outcome A} → Returns P r → ((a : A) → P a → Q a) → Returns Q r
  Returns-map (returns {a} h) k = returns (k a h)
