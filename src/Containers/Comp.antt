-- ===== src/Containers/Comp.antt =====
-- The comparison that the containers of libjarl take as their parameter `Comp`, and what they rely
-- on: it is the equality of keys (`std::equal_to`).
use mathlib.Core.Path.{◌≡◌}
use mathlib.Core.Logic.{◌↔◌}
use mathlib.Core.Bool.{Bool, true}

pub record Comp {ℓ} (K : Type ℓ) : Type ℓ where
  pub comp : K → K → Bool
  pub lawful : (a b : K) → (comp a b ≡ true) ↔ (a ≡ b)
