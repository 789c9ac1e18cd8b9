-- ===== src/Value/Utf8Laws.antt =====
-- What the glyphs of libjarl/string.cpp are: bytes with the high bit, and one without it.
use jarl.Common.{
  ℕ, zero, suc, ◌+◌, ◌≤◌, ◌<◌, ◌≡◌, refl, ◌∙◌, arith, true, false, List, [], ◌∷◌, ◌++◌, none, some,
  ◌==◌, if◌then◌else◌, take, length, leb, length-append, All, Bool-cases, inl, inr, leb→le,
}
use mathlib.Core.List.{append_assoc}
use jarl.Common.Outcome.{ok}
use jarl.Lexeme.{Bytes}
use jarl.Value.Utf8.{
  has_high_bit, terminated, count_low, utf8_len, skip_glyph, skip_glyphs, utf82_idx,
}

-- The bytes with the high bit in front of the last byte, which ends the glyph.
pub record Glyph : Type 0 where
  pub lead : Bytes
  pub last : ℕ

abbrev pub bytes_of : Glyph → Bytes
bytes_of g = g.lead ++ (g.last ∷ [])

abbrev pub bytes : List Glyph → Bytes
bytes [] = []
bytes (g ∷ gs) = bytes_of g ++ bytes gs

abbrev pub IsHigh : ℕ → Type 0
IsHigh b = has_high_bit b ≡ true

abbrev pub IsGlyph : Glyph → Type 0
IsGlyph g = All IsHigh (g.lead) × (has_high_bit (g.last) ≡ false) × ((g.last == 0) ≡ false)

pub not_zero : (b : ℕ) → IsHigh b → (b == 0) ≡ false
not_zero b h = ground arith

count_low-lead : (hs p : Bytes) → All IsHigh hs → count_low (hs ++ p) ≡ count_low p
unfolding count_low
count_low-lead [] p a = refl
count_low-lead (b ∷ hs) p (h, a) = rw (not_zero b h, h) (count_low-lead hs p a)

count_low-last :
    (b n : ℕ) (p : Bytes)
    → has_high_bit b ≡ false
    → (b == 0) ≡ false
    → count_low p ≡ ok n
    → count_low (b ∷ p) ≡ ok (suc n)
unfolding count_low
count_low-last b n p h z e = rw (z, h, e) refl

pub regroup : (g : Glyph) (s p : Bytes) → (bytes_of g ++ s) ++ p ≡ g.lead ++ (g.last ∷ (s ++ p))
regroup g s p =
    rw (append_assoc (g.lead) (g.last ∷ []) s, append_assoc (g.lead) (g.last ∷ s) p) refl

-- The length of a string of glyphs is the number of its glyphs.
pub utf8_len-bytes : (gs : List Glyph) → All IsGlyph gs → utf8_len (bytes gs) ≡ ok (length gs)
unfolding utf8_len count_low
utf8_len-bytes [] a = refl
utf8_len-bytes (g ∷ gs) ((h, l, z), a) = rw (regroup g (bytes gs) (0 ∷ [])) (
    count_low-lead (g.lead) _ h
    ∙ count_low-last (g.last) (length gs) (terminated (bytes gs)) l z (utf8_len-bytes gs a))

skip_glyph-lead :
    (ret n : ℕ) (hs : Bytes) (b : ℕ) (p : Bytes)
    → All IsHigh hs
    → has_high_bit b ≡ false
    → n ≡ ret + length hs + 1
    → skip_glyph ret (hs ++ (b ∷ p)) ≡ ok (n, p)
unfolding skip_glyph
skip_glyph-lead ret n [] b p a l q = let e : n ≡ suc ret = omega arith in rw (l, e) refl
skip_glyph-lead ret n (c ∷ hs) b p (h, a) l q =
    rw h (skip_glyph-lead (suc ret) n hs b p a l (omega arith))

pub skip_glyphs-lead :
    (i ret n : ℕ) (hs : Bytes) (b : ℕ) (p : Bytes)
    → All IsHigh hs
    → has_high_bit b ≡ false
    → (b == 0) ≡ false
    → n ≡ ret + length hs + 1
    → skip_glyphs (suc i) ret (hs ++ (b ∷ p)) ≡ skip_glyphs i n p
unfolding skip_glyphs
skip_glyphs-lead i ret n [] b p a l z q = rw (z, skip_glyph-lead ret n [] b p a l q) refl
skip_glyphs-lead i ret n (c ∷ hs) b p a l z q =
    rw (not_zero c a.0, skip_glyph-lead ret n (c ∷ hs) b p a l q) refl

pub length-bytes_of :
    (g : Glyph) (s : Bytes) → length (bytes_of g ++ s) ≡ length (g.lead) + 1 + length s
length-bytes_of g s =
    omega (arith, length-append (bytes_of g) s, length-append (g.lead) (g.last ∷ []))

skip_glyphs-bytes :
    (gs : List Glyph) (i ret n : ℕ) (p : Bytes)
    → All IsGlyph gs
    → i ≤ length gs
    → n ≡ ret + length (bytes (take i gs))
    → skip_glyphs i ret (bytes gs ++ p) ≡ ok (some n)
unfolding skip_glyphs
skip_glyphs-bytes gs zero ret n p a b q = let e : n ≡ ret = omega arith in rw e refl
skip_glyphs-bytes [] (suc i) ret n p a b q = absurd (omega arith)
skip_glyphs-bytes (g ∷ gs) (suc i) ret n p ((h, l, z), a) b q = rw (regroup g (bytes gs) p) (
    skip_glyphs-lead i ret (ret + length (g.lead) + 1) (g.lead) (g.last) (bytes gs ++ p) h l z refl
    ∙ skip_glyphs-bytes gs i (ret + length (g.lead) + 1) n p a (omega arith)
        (omega (arith, length-bytes_of g (bytes (take i gs)))))

skip_glyphs-past :
    (gs : List Glyph) (i ret : ℕ)
    → All IsGlyph gs
    → length gs < i
    → skip_glyphs i ret (bytes gs ++ (0 ∷ [])) ≡ ok none
unfolding skip_glyphs
skip_glyphs-past gs zero ret a b = absurd (omega arith)
skip_glyphs-past [] (suc i) ret a b = refl
skip_glyphs-past (g ∷ gs) (suc i) ret ((h, l, z), a) b = rw (regroup g (bytes gs) (0 ∷ [])) (
    skip_glyphs-lead i ret (ret + length (g.lead) + 1) (g.lead) (g.last) (bytes gs ++ (0 ∷ [])) h l
      z refl
    ∙ skip_glyphs-past gs i (ret + length (g.lead) + 1) a (omega arith))

-- In a string of glyphs, the place of glyph `i` is the number of bytes of the glyphs before it, also
-- where `i` is the number of the glyphs; there is none for a greater `i`.
pub utf82_idx-bytes :
    (gs : List Glyph) (i : ℕ)
    → All IsGlyph gs
    → utf82_idx i (bytes gs)
      ≡ ok (if leb i (length gs) then some (length (bytes (take i gs))) else none)
unfolding utf82_idx
utf82_idx-bytes gs i a = elim (Bool-cases (leb i (length gs))) [
  | inl t ↦ rw t (skip_glyphs-bytes gs i 0 _ (0 ∷ []) a (leb→le i (length gs) t) (omega arith))
  | inr f ↦ rw f (skip_glyphs-past gs i 0 a (ground arith))
]
