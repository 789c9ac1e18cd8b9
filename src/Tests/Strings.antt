-- ===== src/Tests/Strings.antt =====
-- Strings and their glyphs.
use jarl.Common.{All, List, [], ◌∷◌, ◌++◌, ◌≡◌, refl, arith, some, pos}
use jarl.Value.Utf8.{utf82_idx, utf8_get, string_get}
use jarl.Value.Utf8Laws.{Glyph, bytes, IsGlyph, utf82_idx-bytes}
use jarl.Value.Utf8Glyphs.{number_of, utf8_get-bytes, utf8_get-open, string_get-single}
use jarl.Common.Outcome.{ok, fault}

-- A string of two glyphs, and one that ends in the two bytes of a character in UTF-8.
abbrev two_bytes : Glyph
two_bytes = record { lead = 0xc3 ∷ []; last = 0x41 }

abbrev single : Glyph
single = record { lead = []; last = 0x61 }

abbrev text : List Glyph
text = single ∷ two_bytes ∷ []

text-IsGlyph : All IsGlyph text
text-IsGlyph = ((tt, refl, refl), (((refl, tt), refl, refl), tt))

utf82_idx-bytes_example : utf82_idx 1 (bytes text) ≡ ok (some 1)
utf82_idx-bytes_example = utf82_idx-bytes text 1 text-IsGlyph

utf8_get-bytes_example : utf8_get 1 (bytes text) ≡ ok (number_of (0xc3 ∷ []) 0x41)
utf8_get-bytes_example = utf8_get-bytes text 1 two_bytes text-IsGlyph refl (omega arith)

utf8_get-open_example :
    (utf82_idx 3 (bytes text ++ (0xc3 ∷ 0xa9 ∷ [])) ≡ ok (some 6))
    × (utf8_get 3 (bytes text ++ (0xc3 ∷ 0xa9 ∷ [])) ≡ fault)
utf8_get-open_example = utf8_get-open text 0xc3 (0xa9 ∷ []) text-IsGlyph refl (refl, tt)

string_get-single_example : string_get (bytes text) (pos 0) ≡ ok (some (0x61 ∷ 0 ∷ 0 ∷ 0 ∷ []))
string_get-single_example =
    string_get-single text 0 0x61 text-IsGlyph (omega arith) (omega arith) refl
