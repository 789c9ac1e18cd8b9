-- ===== src/Value/Utf8Glyphs.antt =====
-- The glyphs that `utf8Get` of libjarl/string.cpp reads, and where it reads behind the string.
use jarl.Common.{
  ℕ, zero, suc, ◌+◌, ◌*◌, ◌/◌, ◌%◌, ◌^◌, ◌≤◌, ◌<◌, ◌≡◌, refl, ap, ◌∙◌, arith, true, false, List, [],
  ◌∷◌, ◌++◌, some, ◌==◌, if◌then◌else◌, drop, take, length, leb, ==_iff, pos, length-append, All,
  Bool-cases, inl, inr, get_elem?,
}
use mathlib.Core.Path.{subst}
use mathlib.Core.Option.{some-injective}
use mathlib.Core.List.{append_assoc}
use jarl.Common.Outcome.{ok, fault}
use jarl.Lexeme.{Bytes}
use jarl.Value.Compare.{low_32}
use jarl.Value.Utf8.{
  has_high_bit, skip_glyph, skip_glyphs, utf82_idx, shift_in, glyph_from, get_glyph, utf8_get,
  glyph_bytes, get_at, string_get,
}
use jarl.Value.Utf8Laws.{
  Glyph, bytes_of, bytes, IsHigh, IsGlyph, not_zero, regroup, length-bytes_of, skip_glyphs-lead,
  utf82_idx-bytes,
}

-- What `getGlyph` makes of a glyph: of the bytes in front of the last one only the last counts.
abbrev pub number_of : Bytes → ℕ → ℕ
number_of [] b = b
number_of (h ∷ []) b = (0xffffff00 + h) * 0x100 % 2 ^ 32 + b
number_of (h ∷ k ∷ hs) b = number_of (k ∷ hs) b

shift_in-high : (ret h : ℕ) → IsHigh h → shift_in ret h ≡ 0xffffff00 + h
unfolding shift_in
shift_in-high ret h e = rw e refl

shift_in-low : (ret b : ℕ) → has_high_bit b ≡ false → shift_in ret b ≡ ret * 0x100 % 2 ^ 32 + b
unfolding shift_in
shift_in-low ret b e = rw e refl

wide_high : (h : ℕ) → IsHigh h → has_high_bit (0xffffff00 + h) ≡ true
wide_high h e = ground arith

low_after : (ret b : ℕ) → has_high_bit b ≡ false → has_high_bit (ret * 0x100 % 2 ^ 32 + b) ≡ false
low_after ret b e = ground arith

glyph_from-last :
    (n ret b : ℕ) (p : Bytes)
    → has_high_bit b ≡ false
    → glyph_from (suc n) ret (b ∷ p) ≡ ok (ret * 0x100 % 2 ^ 32 + b)
unfolding glyph_from
glyph_from-last n ret b p l = rw (shift_in-low ret b l, low_after ret b l) refl

glyph_from-lead :
    (n ret h b : ℕ) (hs p : Bytes)
    → IsHigh h
    → All IsHigh hs
    → has_high_bit b ≡ false
    → length hs < n
    → glyph_from (suc n) ret (h ∷ (hs ++ (b ∷ p))) ≡ ok (number_of (h ∷ hs) b)
unfolding glyph_from
glyph_from-lead zero ret h b hs p e a l q = absurd (omega arith)
glyph_from-lead (suc n) ret h b [] p e a l q =
    rw (shift_in-high ret h e, wide_high h e) (glyph_from-last n (0xffffff00 + h) b p l)
glyph_from-lead (suc n) ret h b (k ∷ hs) p e (e', a) l q =
    rw (shift_in-high ret h e, wide_high h e)
      (glyph_from-lead n (0xffffff00 + h) k b hs p e' a l (omega arith))

glyph_from-bytes_of :
    (hs : Bytes) (b : ℕ) (p : Bytes)
    → All IsHigh hs
    → has_high_bit b ≡ false
    → length hs < 4
    → glyph_from 4 0 (hs ++ (b ∷ p)) ≡ ok (number_of hs b)
glyph_from-bytes_of [] b p a l q = glyph_from-last 3 0 b p l ∙ ap (λ (n : ℕ). ok n) (omega arith)
glyph_from-bytes_of (h ∷ hs) b p (e, a) l q = glyph_from-lead 3 0 h b hs p e a l (omega arith)

drop_past : (xs p : Bytes) (m n : ℕ) → m ≡ length xs + n → drop m (xs ++ p) ≡ drop n p
drop_past [] p m n q = let e : m ≡ n = omega arith in rw e refl
drop_past (x ∷ xs) p zero n q = absurd (omega arith)
drop_past (x ∷ xs) p (suc m) n q = drop_past xs p m n (omega arith)

drop-bytes :
    (gs : List Glyph) (i : ℕ) (g : Glyph) (p : Bytes)
    → get_elem? gs i ≡ some g
    → (rest : Bytes) × (drop (length (bytes (take i gs))) (bytes gs ++ p)
        ≡ g.lead ++ (g.last ∷ rest))
drop-bytes [] i g p e = absurd cc
drop-bytes (g' ∷ gs) zero g p e =
    (bytes gs ++ p, let same = some-injective g' g e in rw same (regroup g (bytes gs) p))
drop-bytes (g' ∷ gs) (suc i) g p e =
    let r = drop-bytes gs i g p e in
    (
      r.0,
      (rw (append_assoc (bytes_of g') (bytes gs) p) (
            drop_past (bytes_of g') (bytes gs ++ p) _ (length (bytes (take i gs)))
              (length-append (bytes_of g') (bytes (take i gs))))
          ∙ r.1),
    )

All-get_elem? :
    (gs : List Glyph) (i : ℕ) (g : Glyph)
    → All IsGlyph gs
    → get_elem? gs i ≡ some g
    → IsGlyph g × (i < length gs)
All-get_elem? [] i g a e = absurd cc
All-get_elem? (g' ∷ gs) zero g (h, a) e =
    (subst (λ g. IsGlyph g) (some-injective g' g e) h, omega arith)
All-get_elem? (g' ∷ gs) (suc i) g (h, a) e =
    let r = All-get_elem? gs i g a e in (r.0, omega (arith, r.1))

-- Of a string of glyphs, `utf8Get` gives the number of the glyph at the index, if it has at most four
-- bytes: that of its last two bytes, for it does not depend on those before.
pub utf8_get-bytes :
    (gs : List Glyph) (i : ℕ) (g : Glyph)
    → All IsGlyph gs
    → get_elem? gs i ≡ some g
    → length (g.lead) < 4
    → utf8_get i (bytes gs) ≡ ok (number_of (g.lead) (g.last))
unfolding utf8_get get_glyph
utf8_get-bytes gs i g a e q =
    let at = All-get_elem? gs i g a e in
    let left = drop-bytes gs i g (0 ∷ []) e in
    rw (utf82_idx-bytes gs i a, below at.1, left.1)
      (glyph_from-bytes_of (g.lead) (g.last) (left.0) (at.0.0) (at.0.1) q)
  where
    below : i < length gs → leb i (length gs) ≡ true
    below h = ground arith

skip_glyph-high :
    (ret n : ℕ) (hs : Bytes)
    → All IsHigh hs
    → n ≡ ret + length hs + 1
    → skip_glyph ret (hs ++ (0 ∷ [])) ≡ ok (n, [])
unfolding skip_glyph
skip_glyph-high ret n [] a q = let e : n ≡ suc ret = omega arith in rw e refl
skip_glyph-high ret n (c ∷ hs) (h, a) q = rw h (skip_glyph-high (suc ret) n hs a (omega arith))

skip_glyphs-open :
    (gs : List Glyph) (ret n h : ℕ) (hs : Bytes)
    → All IsGlyph gs
    → IsHigh h
    → All IsHigh hs
    → n ≡ ret + length (bytes gs ++ (h ∷ hs)) + 1
    → skip_glyphs (suc (length gs)) ret ((bytes gs ++ (h ∷ hs)) ++ (0 ∷ [])) ≡ ok (some n)
unfolding skip_glyphs
skip_glyphs-open [] ret n h hs a e e' q =
    rw (not_zero h e, skip_glyph-high ret n (h ∷ hs) (e, e') q) refl
skip_glyphs-open (g ∷ gs) ret n h hs ((k, l, z), a) e e' q =
    let q' = rw (append_assoc (bytes_of g) (bytes gs) (h ∷ hs)) at q in
    rw (append_assoc (bytes_of g) (bytes gs) (h ∷ hs), regroup g (bytes gs ++ (h ∷ hs)) (0 ∷ []))
      (skip_glyphs-lead (suc (length gs)) ret (ret + length (g.lead) + 1) (g.lead) (g.last)
          ((bytes gs ++ (h ∷ hs)) ++ (0 ∷ [])) k l z refl
        ∙ skip_glyphs-open gs (ret + length (g.lead) + 1) n h hs a e e'
            (omega (arith, length-bytes_of g (bytes gs ++ (h ∷ hs)), q')))

-- A string that ends in a byte with the high bit, as every text in UTF-8 does whose last character
-- is not ASCII: the place after its glyphs is behind the terminator, and `utf8Get` reads there.
pub utf8_get-open :
    (gs : List Glyph) (h : ℕ) (hs : Bytes)
    → All IsGlyph gs
    → IsHigh h
    → All IsHigh hs
    → (utf82_idx (suc (length gs)) (bytes gs ++ (h ∷ hs))
        ≡ ok (some (suc (length (bytes gs ++ (h ∷ hs))))))
      × (utf8_get (suc (length gs)) (bytes gs ++ (h ∷ hs)) ≡ fault)
unfolding utf8_get utf82_idx get_glyph glyph_from
utf8_get-open gs h hs a e e' = (found, rw (found, behind) refl)
  where
    found :
        skip_glyphs (suc (length gs)) 0 ((bytes gs ++ (h ∷ hs)) ++ (0 ∷ []))
        ≡ ok (some (suc (length (bytes gs ++ (h ∷ hs)))))
    found = skip_glyphs-open gs 0 _ h hs a e e' (omega arith)

    behind : drop (suc (length (bytes gs ++ (h ∷ hs)))) ((bytes gs ++ (h ∷ hs)) ++ (0 ∷ [])) ≡ []
    behind =
        drop_past (bytes gs ++ (h ∷ hs)) (0 ∷ []) (suc (length (bytes gs ++ (h ∷ hs)))) 1
          (omega arith)

drop-length : (xs : Bytes) (p : Bytes) → drop (length xs) (xs ++ p) ≡ p
drop-length xs p = drop_past xs p (length xs) 0 (omega arith)

take-length : (gs : List Glyph) → take (length gs) gs ≡ gs
take-length [] = refl
take-length (g ∷ gs) = ap (λ hs. g ∷ hs) (take-length gs)

-- A string of glyphs has the glyph 0, which is its terminator, at the index that is its length, and
-- the mark of an index error from the next one on.
pub utf8_get-past :
    (gs : List Glyph) (i : ℕ)
    → All IsGlyph gs
    → length gs ≤ i
    → utf8_get i (bytes gs) ≡ ok (if i == length gs then 0 else 0xffffffff)
unfolding utf8_get get_glyph glyph_from shift_in
utf8_get-past gs i a b = elim (Bool-cases (i == length gs)) [
  | inl t ↦
      let e : i ≡ length gs = (==_iff i (length gs)).0 t in
      rw (utf82_idx-bytes gs i a, t, e, enough, take-length gs, drop-length (bytes gs) (0 ∷ []))
        refl
  | inr f ↦ rw (utf82_idx-bytes gs i a, f, beyond f) refl
]
  where
    enough : leb (length gs) (length gs) ≡ true
    enough = ground arith

    beyond : (i == length gs) ≡ false → leb i (length gs) ≡ false
    beyond f = ground arith

low_32-pos : (i : ℕ) → i < 2 ^ 32 → low_32 (pos i) ≡ i
unfolding low_32
low_32-pos i h = omega arith

-- An index of a string of glyphs that counts a glyph of one byte gives a string of four bytes, which
-- are this byte and three times 0.
pub string_get-single :
    (gs : List Glyph) (i b : ℕ)
    → All IsGlyph gs
    → i < 2 ^ 32
    → b < 256
    → get_elem? gs i ≡ some (record { lead = []; last = b })
    → string_get (bytes gs) (pos i) ≡ ok (some (b ∷ 0 ∷ 0 ∷ 0 ∷ []))
unfolding string_get get_at glyph_bytes
string_get-single gs i b a h k e =
    rw
      (
        low_32-pos i h,
        utf8_get-bytes gs i (record { lead = []; last = b }) a e (omega arith),
        regular,
        low,
        second,
        third,
        fourth,
      )
      refl
  where
    regular : (b == 0xffffffff) ≡ false
    regular = ground arith

    low : b % 0x100 ≡ b
    low = omega arith

    second : b / 0x100 % 0x100 ≡ 0
    second = omega arith

    third : b / 0x10000 % 0x100 ≡ 0
    third = omega arith

    fourth : b / 0x1000000 % 0x100 ≡ 0
    fourth = omega arith
