-- ===== src/Value/Utf8.antt =====
-- libjarl/string.cpp: `String::utf8Len`, `utf82Idx`, `getGlyph` and `utf8Get`, the string of a glyph,
-- and libjarl/value.cpp: the index of a string. A pointer into a string
-- is what is left from there on, the terminator included; a read behind the terminator is a fault.
-- A `char` is signed, as in Compare.
use jarl.Common.{
  ℕ, zero, suc, ◌+◌, ◌*◌, ◌/◌, ◌%◌, ◌^◌, Bool, [], ◌∷◌, ◌++◌, Option, none, some, ◌==◌,
  if◌then◌else◌, drop, ℤ, pos, negsuc, ◌+ℤ◌,
}
use jarl.Common.Outcome
use jarl.Common.Outcome.{Outcome, ok, fault}
use jarl.Lexeme.{Bytes}
use jarl.Value.Compare.{low_32}

-- `*p & 0x80`
abbrev pub has_high_bit : ℕ → Bool
has_high_bit b = b / 0x80 % 2 == 1

-- `str()`
abbrev pub terminated : Bytes → Bytes
terminated s = s ++ (0 ∷ [])

unfoldable pub count_low : Bytes → Outcome ℕ
count_low [] = fault
count_low (b ∷ p) =
    let rest = count_low p in
    if b == 0
    then ok 0
    else if has_high_bit b
    then rest
    else Outcome.bind rest (λ len. ok (suc len))

unfoldable pub utf8_len : Bytes → Outcome ℕ
unfolding count_low
utf8_len s = count_low (terminated s)

-- The inner loop of `utf82Idx` and the step after it.
unfoldable pub skip_glyph : ℕ → Bytes → Outcome (ℕ × Bytes)
skip_glyph ret [] = fault
skip_glyph ret (b ∷ p) =
    let rest = skip_glyph (suc ret) p in if has_high_bit b then rest else ok (suc ret, p)

unfoldable pub skip_glyphs : ℕ → ℕ → Bytes → Outcome (Option ℕ)
unfolding skip_glyph
skip_glyphs zero ret p = ok (some ret)
skip_glyphs (suc i) ret [] = fault
skip_glyphs (suc i) ret (b ∷ p) =
    if b == 0
    then ok none
    else Outcome.bind (skip_glyph ret (b ∷ p)) (λ r. skip_glyphs i (r.0) (r.1))

-- -1 is `none`.
unfoldable pub utf82_idx : ℕ → Bytes → Outcome (Option ℕ)
unfolding skip_glyphs
utf82_idx i s = skip_glyphs i 0 (terminated s)

-- `ret <<= 8; ret |= p[i];`, where a byte with its high bit is widened with ones.
unfoldable pub shift_in : ℕ → ℕ → ℕ
shift_in ret b = if has_high_bit b then 0xffffff00 + b else ret * 0x100 % 2 ^ 32 + b

-- The loop of `getGlyph`, of which `n` rounds are left.
unfoldable pub glyph_from : ℕ → ℕ → Bytes → Outcome ℕ
unfolding shift_in
glyph_from zero ret p = ok ret
glyph_from (suc n) ret [] = fault
glyph_from (suc n) ret (b ∷ p) =
    let rest = glyph_from n (shift_in ret b) p in
    if has_high_bit (shift_in ret b) then rest else ok (shift_in ret b)

unfoldable pub get_glyph : ℕ → Bytes → Outcome ℕ
unfolding glyph_from
get_glyph idx s = glyph_from 4 0 (drop idx (terminated s))

unfoldable pub utf8_get : ℕ → Bytes → Outcome ℕ
unfolding utf82_idx get_glyph
utf8_get i s =
    Outcome.bind (utf82_idx i s) (λ idx. elim idx [ none ↦ ok 0xffffffff | some n ↦ get_glyph n s ])

-- `make_new<String, uint32_t>`: `val & 0xff000000 == 0` is `val & 0`, so four bytes are written, the
-- lowest one first.
unfoldable pub glyph_bytes : ℕ → Bytes
glyph_bytes val =
    val % 0x100 ∷ val / 0x100 % 0x100 ∷ val / 0x10000 % 0x100 ∷ val / 0x1000000 % 0x100 ∷ []

-- `utf8Get(index)`, of an `Int` that is cut off to an `unsigned`; `none` is the index error.
unfoldable pub get_at : Bytes → ℤ → Outcome (Option Bytes)
unfolding utf8_get glyph_bytes
get_at s index =
    Outcome.bind (utf8_get (low_32 index) s)
      (λ glyph. ok (if glyph == 0xffffffff then none else some (glyph_bytes glyph)))

-- The case of a string in `TypedValue::get`.
unfoldable pub string_get : Bytes → ℤ → Outcome (Option Bytes)
unfolding get_at utf8_len
string_get s (pos n) = get_at s (pos n)
string_get s (negsuc n) = Outcome.bind (utf8_len s) (λ len. get_at s (pos len +ℤ negsuc n))
