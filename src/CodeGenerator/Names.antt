-- ===== src/CodeGenerator/Names.antt =====
-- The keys of a `VarAllocMap` of libjarl/code_generator.h: addresses of interned strings, which are
-- equal when the bytes are.
use mathlib.Core.Bool.{Bool, true, false, false≢true}
use jarl.Common.{[], ◌∷◌, ◌≡◌, refl, ◌==◌, ◌&&◌, ==_iff, Bool-cases, inl, inr}
use jarl.Lexeme.{Bytes}
use jarl.Containers.Comp.{Comp}

unfoldable pub same_bytes : Bytes → Bytes → Bool
same_bytes [] [] = true
same_bytes (a ∷ s) (b ∷ t) = (a == b) && same_bytes s t
same_bytes _ _ = false

pub same_bytes_refl : (s : Bytes) → same_bytes s s ≡ true
unfolding same_bytes
same_bytes_refl [] = refl
same_bytes_refl (a ∷ s) = rw ((==_iff a a).1 refl) (same_bytes_refl s)

pub same_bytes_eq : (s t : Bytes) → same_bytes s t ≡ true → s ≡ t
unfolding same_bytes
same_bytes_eq [] [] h = refl
same_bytes_eq [] (b ∷ t) h = absurd cc
same_bytes_eq (a ∷ s) [] h = absurd cc
same_bytes_eq (a ∷ s) (b ∷ t) h = elim (Bool-cases (a == b)) [
  | inl e ↦
      let same = (==_iff a b).0 e in
      let rest = same_bytes_eq s t (rw e at h) in rw (same, rest) refl
  | inr n ↦ absurd (false≢true (rw n at h))
]

abbrev pub names : Comp Bytes
names = record {
  comp = same_bytes;
  lawful = λ s t. (same_bytes_eq s t, λ e. rw e (same_bytes_refl t));
}
