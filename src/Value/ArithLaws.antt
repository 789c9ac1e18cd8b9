-- ===== src/Value/ArithLaws.antt =====
-- What the arithmetic of libjarl/value.cpp guarantees.
use native.Mathlib.Nat.{div-add-mod, mod-lt}
use jarl.Common.{
  ℕ, suc, zero, ◌+◌, ◌*◌, ◌/◌, ◌%◌, ◌^◌, ◌-◌, ◌≤◌, ◌<◌, ◌≡◌, ◌≢◌, ◌↔◌, refl, ap, Bool, ◌⊎◌, inl,
  inr, true, false, arith, ℤ, pos, negsuc, pos_part, neg_part, sub_ℕ, ◌+ℤ◌, ◌*ℤ◌, eqb_ℤ, +ℤ_parts,
  *ℤ_parts, eq_of_parts, Bool-cases, ==_iff,
}
use jarl.Value.Word.{checked, in_range, quotient, remainder, magnitude, signed, int_limit}
use jarl.Value.Data.{int, ok, error_jmp, undefined, division_by_zero, FloatOps}
use jarl.Value.Arith.{div, modulo}

Nat-cases : (n m : ℕ) → (n ≡ m) ⊎ (n ≢ m)
Nat-cases n m = omega arith

ℤ-cases : (a b : ℤ) → (a ≡ b) ⊎ (a ≢ b)
ℤ-cases a b = elim (Nat-cases (pos_part a + neg_part b) (pos_part b + neg_part a)) [
  | inl e ↦ inl (eq_of_parts a b e)
  | inr n ↦ inr (λ e. n (rw e))
]

signed_parts :
    (n : ℕ)
    → (pos_part (signed true n) ≡ 0)
      × (neg_part (signed true n) ≡ n)
      × (pos_part (signed false n) ≡ n)
      × (neg_part (signed false n) ≡ 0)
signed_parts n = ground arith

-- `q * b + r` is `a` if it is in positive and negative parts.
recompose :
    (q b r a : ℤ)
    → pos_part q * pos_part b + neg_part q * neg_part b + pos_part r + neg_part a
      ≡ pos_part q * neg_part b + neg_part q * pos_part b + neg_part r + pos_part a
    → q *ℤ b +ℤ r ≡ a
recompose q b r a h = eq_of_parts _ _ (omega (arith, *ℤ_parts q b, +ℤ_parts (q *ℤ b) r))

-- The quotient and the remainder put the dividend together again, whatever the signs.
quotient-remainder : (a b : ℤ) → quotient a b *ℤ b +ℤ remainder a b ≡ a
unfolding quotient remainder
quotient-remainder (pos n) (pos m) = recompose _ _ _ _ (omega (arith, div-add-mod (n + 0) (m + 0)))
quotient-remainder (pos n) (negsuc m) =
    let (qp, qn, _, _) = signed_parts ((n + 0) / (0 + suc m)) in
    recompose _ _ _ _ (simp (qp, qn) (omega (arith, div-add-mod (n + 0) (0 + suc m))))
quotient-remainder (negsuc n) (pos m) =
    let (qp, qn, _, _) = signed_parts ((0 + suc n) / (m + 0)) in
    let (rp, rn, _, _) = signed_parts ((0 + suc n) % (m + 0)) in
    recompose _ _ _ _ (simp (qp, qn, rp, rn) (omega (arith, div-add-mod (0 + suc n) (m + 0))))
quotient-remainder (negsuc n) (negsuc m) =
    let (rp, rn, _, _) = signed_parts ((0 + suc n) % (0 + suc m)) in
    recompose _ _ _ _ (simp (rp, rn) (omega (arith, div-add-mod (0 + suc n) (0 + suc m))))

magnitude-signed : (s : Bool) (n : ℕ) → magnitude (signed s n) ≡ n
magnitude-signed true n = ground arith
magnitude-signed false n = ground arith

-- The remainder is smaller than the divisor, and has the sign of the dividend if it is not 0.
remainder-lt : (a b : ℤ) → magnitude b ≢ 0 → magnitude (remainder a b) < magnitude b
unfolding remainder
remainder-lt a b h = rw magnitude-signed (mod-lt (magnitude a) (omega arith))

abbrev SameSign : ℤ → ℤ → Type 0
SameSign (pos n) r = neg_part r ≡ 0
SameSign (negsuc n) r = pos_part r ≡ 0

remainder-SameSign : (a b : ℤ) → SameSign a (remainder a b)
unfolding remainder
remainder-SameSign (pos n) b = refl
remainder-SameSign (negsuc n) b = (signed_parts (magnitude (negsuc n) % magnitude b)).0

-- -(2 ^ 63), the least value, and -1
abbrev pub int_min : ℤ
int_min = negsuc (2 ^ 63 - 1)

abbrev pub minus_one : ℤ
minus_one = negsuc 0

quotient_le : (n m : ℕ) → n / m ≤ n
quotient_le n m = grind arith

quotient_half : (n m : ℕ) → 2 ≤ m → n / m + n / m ≤ n
quotient_half n m h = grind (arith, div-add-mod n m)

in_range_bounds : (i : ℤ) → in_range i ≡ true → (pos_part i < int_limit) × (neg_part i ≤ int_limit)
in_range_bounds i h = ground arith

in_range_of : (i : ℤ) → pos_part i < int_limit → neg_part i ≤ int_limit → in_range i ≡ true
in_range_of i h k = ground arith

quotient-in_range :
    (a b : ℤ)
    → in_range a ≡ true
    → ¬ ((a ≡ int_min) × (b ≡ minus_one))
    → in_range (quotient a b) ≡ true
unfolding quotient
quotient-in_range (pos n) (pos m) r e =
    in_range_of (pos ((n + 0) / (m + 0)))
      (omega (arith, in_range_bounds (pos n) r, quotient_le (n + 0) (m + 0))) (omega arith)
quotient-in_range (pos n) (negsuc m) r e =
    let (qp, qn, _, _) = signed_parts ((n + 0) / (0 + suc m)) in
    in_range_of (sub_ℕ 0 ((n + 0) / (0 + suc m))) (omega (arith, qp))
      (omega (arith, qn, in_range_bounds (pos n) r, quotient_le (n + 0) (0 + suc m)))
quotient-in_range (negsuc n) (pos m) r e =
    let (qp, qn, _, _) = signed_parts ((0 + suc n) / (m + 0)) in
    in_range_of (sub_ℕ 0 ((0 + suc n) / (m + 0))) (omega (arith, qp))
      (omega (arith, qn, in_range_bounds (negsuc n) r, quotient_le (0 + suc n) (m + 0)))
quotient-in_range (negsuc n) (negsuc zero) r e =
    in_range_of (pos ((0 + suc n) / (0 + suc zero)))
      (elim (Nat-cases n (2 ^ 63 - 1)) [
        | inl same ↦ absurd (e (ap negsuc same, refl))
        | inr other ↦
            omega (arith, in_range_bounds (negsuc n) r, quotient_le (0 + suc n) (0 + suc zero))
      ])
      (omega arith)
quotient-in_range (negsuc n) (negsuc (suc m)) r e =
    in_range_of (pos ((0 + suc n) / (0 + suc (suc m))))
      (omega (
        arith,
        in_range_bounds (negsuc n) r,
        quotient_half (0 + suc n) (0 + suc (suc m)) (omega arith),
      ))
      (omega arith)

eqb-false : (b : ℤ) → b ≢ pos 0 → eqb_ℤ b (pos 0) ≡ false
eqb-false b h = elim (Bool-cases (eqb_ℤ b (pos 0))) [
  | inl z ↦ absurd (h (eq_of_parts b (pos 0) ((==_iff _ _).0 z)))
  | inr n ↦ n
]

magnitude_ne_zero : (b : ℤ) → b ≢ pos 0 → magnitude b ≢ 0
magnitude_ne_zero (pos n) h z = h (ap pos (omega arith))
magnitude_ne_zero (negsuc n) h z = omega arith

-- What `/` and `%` give for `a` and `b`.
pub record Divides (a b : ℤ) (q r : ℤ) : Type 0 where
  pub whole : q *ℤ b +ℤ r ≡ a
  pub small : magnitude r < magnitude b
  pub sign : SameSign a r

module _ (ops : FloatOps) where
  -- Of a dividend in the range of `Int` and a divisor other than 0, apart from -(2^63) and -1, the
  -- operations `/` and `%` give a quotient `q` and a remainder `r` with `q * b + r = a`, `r`
  -- smaller than `b` in magnitude, and of the sign of `a` unless it is 0.
  pub div-modulo :
      (a b : ℤ)
      → in_range a ≡ true
      → b ≢ pos 0
      → ¬ ((a ≡ int_min) × (b ≡ minus_one))
      → (q : ℤ) × (r : ℤ) × (div ops (int a) (int b) ≡ ok (int q))
        × (modulo ops (int a) (int b) ≡ ok (int r))
        × Divides a b q r
  unfolding div modulo checked
  div-modulo a b r z e =
      let fits = quotient-in_range a b r e in
      let nonzero = eqb-false b z in
      (
        quotient a b,
        remainder a b,
        simp (nonzero, fits),
        simp (nonzero, fits),
        record {
          whole = quotient-remainder a b;
          small = remainder-lt a b (magnitude_ne_zero b z);
          sign = remainder-SameSign a b;
        },
      )

  div-zero : (a : ℤ) → div ops (int a) (int (pos 0)) ≡ error_jmp division_by_zero
  unfolding div
  div-zero a = refl

  -- The least integer by -1 is undefined for both.
  div-overflow :
      (div ops (int int_min) (int minus_one) ≡ undefined)
      × (modulo ops (int int_min) (int minus_one) ≡ undefined)
  unfolding div modulo checked quotient
  div-overflow = (refl, refl)

  defined :
      (a b : ℤ)
      → in_range a ≡ true
      → ¬ ((a ≡ int_min) × (b ≡ minus_one))
      → div ops (int a) (int b) ≢ undefined
  defined a b r e u = elim (ℤ-cases b (pos 0)) [
    | inl z ↦ by_zero z
    | inr n ↦ let (q, _, d, _, _) = div-modulo a b r n e in cc
  ]
    where
      by_zero : b ≡ pos 0 → ⊥
      by_zero z = cc (div-zero a, ap (λ (x : ℤ). div ops (int a) (int x)) z)

  -- For operands in the range of `Int`, `/` is undefined exactly for -(2^63) and -1.
  pub div-undefined_iff :
      (a b : ℤ)
      → in_range a ≡ true
      → (div ops (int a) (int b) ≡ undefined) ↔ ((a ≡ int_min) × (b ≡ minus_one))
  div-undefined_iff a b r = (forth, λ h. rw (h.0, h.1) (div-overflow.0))
    where
      forth : div ops (int a) (int b) ≡ undefined → (a ≡ int_min) × (b ≡ minus_one)
      forth u = elim (ℤ-cases a int_min) [
        | inl p ↦ elim (ℤ-cases b minus_one) [
          | inl q ↦ (p, q)
          | inr n ↦ absurd (defined a b r (λ h. n h.1) u)
        ]
        | inr n ↦ absurd (defined a b r (λ h. n h.0) u)
      ]
