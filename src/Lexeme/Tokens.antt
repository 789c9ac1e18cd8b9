-- ===== src/Lexeme/Tokens.antt =====
-- What the lexer of libjarl/lexer.cpp hands to the parser: lexemes that stand for themselves and
-- hold the value that their type says, and one `End` after them.
use jarl.Common.{◌≡◌, ◌≢◌, ◌%◌, List, [], ◌∷◌}
use jarl.Lexeme.{
  Lexeme, LexemeType, code, Payload, int_value, float_value, bool_value, string_value,
}

abbrev pub HasValue : LexemeType → Payload → Type 0
HasValue LexemeType.int (int_value i) = Unit
HasValue LexemeType.int _ = ⊥
HasValue LexemeType.float (float_value f) = Unit
HasValue LexemeType.float _ = ⊥
HasValue LexemeType.bool (bool_value b) = Unit
HasValue LexemeType.bool _ = ⊥
HasValue LexemeType.string (string_value s) = Unit
HasValue LexemeType.string _ = ⊥
HasValue LexemeType.identifier (string_value s) = Unit
HasValue LexemeType.identifier _ = ⊥
HasValue _ _ = Unit

-- Neither `End` nor a name of a precedence level.
abbrev pub IsSymbol : LexemeType → Type 0
IsSymbol t = code t % 0x10 ≢ 0

abbrev pub IsTokens : List Lexeme → Type 0
IsTokens [] = ⊥
IsTokens (l ∷ []) = l.type ≡ LexemeType.end
IsTokens (l ∷ m ∷ r) = IsSymbol l.type × HasValue l.type l.value × IsTokens (m ∷ r)
