-- ===== src/Value/CompareLaws.antt =====
-- What the comparisons of libjarl/value.cpp and libjarl/string.cpp guarantee, and where they fail.
use mathlib.Core.Bool.{not}
use jarl.Common.{
  if◌then◌else◌, ◌+◌, ◌%◌, ◌^◌, ◌≤◌, ◌<◌, ◌≡◌, ◌↔◌, refl, sym, ◌∙◌, ap, Bool, true, Option, none,
  some, arith, ℤ, pos, negsuc, pos_part, neg_part, ◌-ℤ◌, eqb_ℤ, ltb_ℤ, leb_ℤ, -ℤ_parts, ◌⊎◌, inl,
  inr,
}
use jarl.Value.Word.{checked, in_range, magnitude}
use jarl.Value.Data.{TypedValue, bool, int, Result, ok, undefined, FloatOps}
use jarl.Value.Compare.{CmpMode, low_32, to_int32, mode_holds, cmp, sign_of, cmp_mode}

-- What the operator means on integers.
abbrev pub compares : CmpMode → ℤ → ℤ → Bool
compares CmpMode.equal a b = eqb_ℤ a b
compares CmpMode.not_equal a b = not (eqb_ℤ a b)
compares CmpMode.greater a b = ltb_ℤ b a
compares CmpMode.less a b = ltb_ℤ a b
compares CmpMode.greater_equal a b = leb_ℤ b a
compares CmpMode.less_equal a b = leb_ℤ a b

to_int32_small : (i : ℤ) → pos_part i < 2 ^ 31 → neg_part i ≤ 2 ^ 31 → to_int32 i ≡ i
unfolding to_int32
to_int32_small (pos n) h k = ground arith
to_int32_small (negsuc n) h k = ground arith

mode_holds-difference : (m : CmpMode) (a b : ℤ) → mode_holds m (a -ℤ b) ≡ compares m a b
unfolding mode_holds
mode_holds-difference CmpMode.equal a b = let p = -ℤ_parts a b in ground arith
mode_holds-difference CmpMode.not_equal a b = let p = -ℤ_parts a b in ground arith
mode_holds-difference CmpMode.greater a b = let p = -ℤ_parts a b in ground arith
mode_holds-difference CmpMode.less a b = let p = -ℤ_parts a b in ground arith
mode_holds-difference CmpMode.greater_equal a b = let p = -ℤ_parts a b in ground arith
mode_holds-difference CmpMode.less_equal a b = let p = -ℤ_parts a b in ground arith

-- One of the parts of an integer is 0.
one_part : (i : ℤ) → (pos_part i ≡ 0) ⊎ (neg_part i ≡ 0)
one_part (pos n) = inr refl
one_part (negsuc n) = inl refl

in_range_of : (i : ℤ) → pos_part i < 2 ^ 63 → neg_part i ≤ 2 ^ 63 → in_range i ≡ true
in_range_of i h k = ground arith

checked-some : (i : ℤ) → in_range i ≡ true → checked i ≡ some i
unfolding checked
checked-some i h = rw h refl

close-in_range :
    (a b : ℤ)
    → pos_part a + neg_part b < pos_part b + neg_part a + 2 ^ 31
    → pos_part b + neg_part a < pos_part a + neg_part b + 2 ^ 31
    → (pos_part (a -ℤ b) < 2 ^ 31) × (neg_part (a -ℤ b) ≤ 2 ^ 31)
close-in_range a b h k = elim (one_part (a -ℤ b)) [
  | inl z ↦ (omega (arith, -ℤ_parts a b, z), omega (arith, -ℤ_parts a b, z))
  | inr z ↦ (omega (arith, -ℤ_parts a b, z), omega (arith, -ℤ_parts a b, z))
]

to_int32-zero_iff :
    (i : ℤ) → (mode_holds CmpMode.equal (to_int32 i) ≡ true) ↔ (magnitude i % 2 ^ 32 ≡ 0)
unfolding mode_holds to_int32 low_32
to_int32-zero_iff (pos n) = ground arith
to_int32-zero_iff (negsuc n) = ground arith

abbrev answer : Bool → Result TypedValue
answer x = ok (bool x)

ok_bool-injective : (x y : Bool) → answer x ≡ answer y → x ≡ y
ok_bool-injective x y h = cc

-- What `<=>` means on integers.
abbrev pub order : ℤ → ℤ → ℤ
order a b = if ltb_ℤ a b then negsuc 0 else if ltb_ℤ b a then pos 1 else pos 0

sign_of-difference : (a b : ℤ) → sign_of (a -ℤ b) ≡ order a b
sign_of-difference a b = let p = -ℤ_parts a b in ground arith

module _ (ops : FloatOps) where
  cmp_mode-int :
      (m : CmpMode) (a b t : ℤ)
      → checked (a -ℤ b) ≡ some t
      → cmp_mode ops m (int a) (int b) ≡ ok (bool (mode_holds m (to_int32 t)))
  unfolding cmp_mode
  cmp_mode-int m a b t h =
      ap
        (λ (o : Option ℤ). elim o [
          | none ↦ undefined
          | some t ↦ ok (bool (mode_holds m (to_int32 t)))
        ])
        h

  -- Two integers less than 2^31 apart compare as they should, under each of the six operators.
  pub cmp_mode-compares :
      (m : CmpMode) (a b : ℤ)
      → pos_part a + neg_part b < pos_part b + neg_part a + 2 ^ 31
      → pos_part b + neg_part a < pos_part a + neg_part b + 2 ^ 31
      → cmp_mode ops m (int a) (int b) ≡ ok (bool (compares m a b))
  cmp_mode-compares m a b h k =
      let (above, below) = close-in_range a b h k in
      let fits = checked-some (a -ℤ b) (in_range_of (a -ℤ b) (omega arith) (omega arith)) in
      rw (cmp_mode-int m a b (a -ℤ b) fits)
        (rw (to_int32_small (a -ℤ b) above below) (rw mode_holds-difference refl))

  -- Two integers whose difference is in the range of `Int` are equal for `==` exactly when 2^32
  -- divides the difference.
  pub cmp_mode-equal_iff :
      (a b : ℤ)
      → in_range (a -ℤ b) ≡ true
      → (cmp_mode ops CmpMode.equal (int a) (int b) ≡ ok (bool true))
        ↔ (magnitude (a -ℤ b) % 2 ^ 32 ≡ 0)
  cmp_mode-equal_iff a b r =
      let e = cmp_mode-int CmpMode.equal a b (a -ℤ b) (checked-some (a -ℤ b) r) in
      let (forth, back) = to_int32-zero_iff (a -ℤ b) in
      (λ h. forth (ok_bool-injective _ _ (sym e ∙ h)), λ h. e ∙ ap answer (back h))

  -- Of two integers whose difference is in the range of `Int`, `<=>` gives -1 if the first is less,
  -- 1 if it is greater, and 0 if they are equal.
  pub cmp-order :
      (a b : ℤ) → in_range (a -ℤ b) ≡ true → cmp ops (int a) (int b) ≡ ok (int (order a b))
  unfolding cmp
  cmp-order a b r =
      ap (λ (o : Option ℤ). elim o [ none ↦ undefined | some t ↦ ok (int (sign_of t)) ])
        (checked-some (a -ℤ b) r)
      ∙ ap (λ (i : ℤ). ok (int i)) (sign_of-difference a b)
