-- ===== src/Value/StringLaws.antt =====
-- What `String::cmp` of libjarl/string.cpp guarantees.
use mathlib.Core.Path.{subst}
use jarl.Common.{
  ℕ, ◌<◌, ◌≡◌, ◌≢◌, ◌↔◌, refl, sym, ap, ◌∙◌, true, false, [], ◌∷◌, arith, ◌==◌, ℤ, pos, ◌-ℤ◌, eqb_ℤ,
  eq_of_parts, Bool-cases, inl, inr, ==_iff, All,
}
use jarl.Lexeme.{Bytes}
use jarl.Value.Word.{negate}
use jarl.Value.Compare.{char_value, string_cmp}

-- A byte that is not the terminator.
abbrev pub IsChar : ℕ → Type 0
IsChar b = (0 < b) × (b < 256)

char_value-injective : (a b : ℕ) → a < 256 → b < 256 → char_value a -ℤ char_value b ≡ pos 0 → a ≡ b
unfolding ◌-ℤ◌
char_value-injective a b h k e = ground arith

char_value-zero : (b : ℕ) → IsChar b → char_value b -ℤ pos 0 ≢ pos 0
unfolding ◌-ℤ◌
char_value-zero b h e = ground arith

zero-char_value : (b : ℕ) → IsChar b → pos 0 -ℤ char_value b ≢ pos 0
unfolding ◌-ℤ◌
zero-char_value b h e = ground arith

char_value_self : (a : ℕ) → char_value a -ℤ char_value a ≡ pos 0
unfolding ◌-ℤ◌
char_value_self a = ground arith

string_cmp-same :
    (a b : ℕ) (s t : Bytes)
    → eqb_ℤ (char_value a -ℤ char_value b) (pos 0) ≡ true
    → (a == 0) ≡ false
    → string_cmp (a ∷ s) (b ∷ t) ≡ string_cmp s t
unfolding string_cmp
string_cmp-same a b s t e z = rw (e, z) refl

string_cmp-other :
    (a b : ℕ) (s t : Bytes)
    → eqb_ℤ (char_value a -ℤ char_value b) (pos 0) ≡ false
    → string_cmp (a ∷ s) (b ∷ t) ≡ char_value a -ℤ char_value b
unfolding string_cmp
string_cmp-other a b s t e = rw e refl

eqb-zero : (i : ℤ) → eqb_ℤ i (pos 0) ≡ true → i ≡ pos 0
eqb-zero i h = eq_of_parts i (pos 0) ((==_iff _ _).0 h)

zero-eqb : (i : ℤ) → i ≡ pos 0 → eqb_ℤ i (pos 0) ≡ true
zero-eqb i h = rw h refl

char-==_zero : (a : ℕ) → IsChar a → (a == 0) ≡ false
char-==_zero a h = ground arith

cons-eq : {a b : ℕ} {s t : Bytes} → a ≡ b → s ≡ t → a ∷ s ≡ b ∷ t
cons-eq e f = cc

string_cmp-eq : (s t : Bytes) → All IsChar s → All IsChar t → string_cmp s t ≡ pos 0 → s ≡ t
string_cmp-eq [] [] hs ht e = refl
string_cmp-eq [] (b ∷ t) hs (hb, ht) e = absurd (zero-char_value b hb (string_cmp-left b t e))
  where
    string_cmp-left :
        (b : ℕ) (t : Bytes) → string_cmp [] (b ∷ t) ≡ pos 0 → pos 0 -ℤ char_value b ≡ pos 0
    string_cmp-left b t e = unfold string_cmp in e
string_cmp-eq (a ∷ s) [] (ha, hs) ht e = absurd (char_value-zero a ha (string_cmp-right a s e))
  where
    string_cmp-right :
        (a : ℕ) (s : Bytes) → string_cmp (a ∷ s) [] ≡ pos 0 → char_value a -ℤ pos 0 ≡ pos 0
    string_cmp-right a s e = unfold string_cmp in e
string_cmp-eq (a ∷ s) (b ∷ t) (ha, hs) (hb, ht) e =
    elim (Bool-cases (eqb_ℤ (char_value a -ℤ char_value b) (pos 0))) [
      | inl z ↦
          cons-eq (char_value-injective a b (ha.1) (hb.1) (eqb-zero _ z))
            (string_cmp-eq s t hs ht (sym (string_cmp-same a b s t z (char-==_zero a ha)) ∙ e))
      | inr n ↦
          let d = zero-eqb (char_value a -ℤ char_value b) (sym (string_cmp-other a b s t n) ∙ e) in
          cc
    ]

string_cmp_refl : (s : Bytes) → All IsChar s → string_cmp s s ≡ pos 0
string_cmp_refl [] h = string_cmp-nil
  where
    string_cmp-nil : string_cmp [] [] ≡ pos 0
    string_cmp-nil = unfold string_cmp in refl
string_cmp_refl (a ∷ s) (ha, hs) =
    string_cmp-same a a s s (zero-eqb _ (char_value_self a)) (char-==_zero a ha)
    ∙ string_cmp_refl s hs

-- Of strings of bytes other than the terminator, `cmp` is 0 exactly for equal strings.
pub string_cmp-zero_iff :
    (s t : Bytes) → All IsChar s → All IsChar t → (string_cmp s t ≡ pos 0) ↔ (s ≡ t)
string_cmp-zero_iff s t hs ht = (
  string_cmp-eq s t hs ht,
  λ e. subst (λ (u : Bytes). string_cmp s u ≡ pos 0) e (string_cmp_refl s hs),
)

negate-difference : (a b : ℤ) → b -ℤ a ≡ negate (a -ℤ b)
unfolding ◌-ℤ◌ negate
negate-difference a b = ground arith

eqb-flip : (a b : ℤ) → eqb_ℤ (b -ℤ a) (pos 0) ≡ eqb_ℤ (a -ℤ b) (pos 0)
unfolding ◌-ℤ◌
eqb-flip a b = ground arith

negate-zero : negate (pos 0) ≡ pos 0
unfolding negate
negate-zero = refl

-- Of strings of bytes other than the terminator, `cmp` the other way round has the opposite sign
-- and the same magnitude.
pub string_cmp-flip :
    (s t : Bytes) → All IsChar s → All IsChar t → string_cmp t s ≡ negate (string_cmp s t)
string_cmp-flip [] [] hs ht =
    string_cmp_refl [] tt ∙ sym negate-zero ∙ ap negate (sym (string_cmp_refl [] tt))
string_cmp-flip [] (b ∷ t) hs ht = unfold string_cmp in negate-difference (pos 0) (char_value b)
string_cmp-flip (a ∷ s) [] hs ht = unfold string_cmp in negate-difference (char_value a) (pos 0)
string_cmp-flip (a ∷ s) (b ∷ t) (ha, hs) (hb, ht) =
    let flipped = eqb-flip (char_value a) (char_value b) in
    elim (Bool-cases (eqb_ℤ (char_value a -ℤ char_value b) (pos 0))) [
      | inl z ↦
          string_cmp-same b a t s (flipped ∙ z) (char-==_zero b hb)
          ∙ string_cmp-flip s t hs ht
          ∙ ap negate (sym (string_cmp-same a b s t z (char-==_zero a ha)))
      | inr n ↦
          string_cmp-other b a t s (flipped ∙ n)
          ∙ negate-difference (char_value a) (char_value b)
          ∙ ap negate (sym (string_cmp-other a b s t n))
    ]
