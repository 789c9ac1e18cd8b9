-- ===== src/Lexeme.antt =====
-- libjarl/lexeme.h and libjarl/lexeme.cpp: lexeme types with their numbers, lexemes, and the test
-- that decides whether a line break ends a statement. Also the two unions' shared payload and the
-- source position. A `Float` is its bit pattern, a `String` the bytes before its terminator.
use jarl.Common.{ℕ, Bool, true, false, List, ℤ}
pub mod Tokens

abbrev pub Float : Type 0
Float = ℕ

abbrev pub Bytes : Type 0
Bytes = List ℕ

abbrev pub Pos : Type 0
Pos = ℕ × ℕ

pub data LexemeType : Type 0 where
  end : LexemeType
  stop_symbol_class r_paren r_brace r_bracket do_ : LexemeType
  l20 semicolon newline : LexemeType
  l30 else_ var return print assert : LexemeType
  right_assoc_class comma : LexemeType
  l60 assign add_assign sub_assign mul_assign div_assign mod_assign append_assign : LexemeType
  insert colon : LexemeType
  left_assoc_class and_ or_ : LexemeType
  l80 eq neq gt lt geq leq in_ : LexemeType
  l90 append : LexemeType
  la0 cmp : LexemeType
  lb0 plus minus : LexemeType
  lc0 mul div mod_ : LexemeType
  expr_class l_paren l_brace l_bracket : LexemeType
  le0 not_ move int float bool identifier string null if_ while for func recurse : LexemeType
  lf0 error : LexemeType

-- The value of an enumerator.
unfoldable pub code : LexemeType → ℕ
code end = 0
code stop_symbol_class = 0x10
code r_paren = 0x11
code r_brace = 0x12
code r_bracket = 0x13
code do_ = 0x14
code l20 = 0x20
code semicolon = 0x21
code newline = 0x22
code l30 = 0x30
code else_ = 0x31
code var = 0x32
code return = 0x33
code print = 0x34
code assert = 0x35
code right_assoc_class = 0x50
code comma = 0x51
code l60 = 0x60
code assign = 0x61
code add_assign = 0x62
code sub_assign = 0x63
code mul_assign = 0x64
code div_assign = 0x65
code mod_assign = 0x66
code append_assign = 0x67
code insert = 0x68
code colon = 0x69
code left_assoc_class = 0x70
code and_ = 0x71
code or_ = 0x72
code l80 = 0x80
code eq = 0x81
code neq = 0x82
code gt = 0x83
code lt = 0x84
code geq = 0x85
code leq = 0x86
code in_ = 0x87
code l90 = 0x90
code append = 0x91
code la0 = 0xa0
code cmp = 0xa1
code lb0 = 0xb0
code plus = 0xb1
code minus = 0xb2
code lc0 = 0xc0
code mul = 0xc1
code div = 0xc2
code mod_ = 0xc3
code expr_class = 0xd0
code l_paren = 0xd1
code l_brace = 0xd2
code l_bracket = 0xd3
code le0 = 0xe0
code not_ = 0xe1
code move = 0xe2
code int = 0xe3
code float = 0xe4
code bool = 0xe5
code identifier = 0xe6
code string = 0xe7
code null = 0xe8
code if_ = 0xe9
code while = 0xea
code for = 0xeb
code func = 0xec
code recurse = 0xed
code lf0 = 0xf0
code error = 0xf1

-- What the union of a lexeme or of a leaf of the tree holds.
pub data Payload : Type 0 where
  no_value : Payload
  int_value : ℤ → Payload
  float_value : Float → Payload
  bool_value : Bool → Payload
  string_value : Bytes → Payload

pub record Lexeme : Type 0 where
  pub type : LexemeType
  pub pos : Pos
  pub value : Payload

-- The constructors of the source, one for each overload.
abbrev pub of_type : LexemeType → Pos → Lexeme
of_type t p = record { type = t; pos = p; value = no_value }

abbrev pub of_int : ℤ → Pos → Lexeme
of_int i p = record { type = int; pos = p; value = int_value i }

abbrev pub of_float : Float → Pos → Lexeme
of_float f p = record { type = float; pos = p; value = float_value f }

abbrev pub of_bool : Bool → Pos → Lexeme
of_bool b p = record { type = bool; pos = p; value = bool_value b }

abbrev pub of_name : LexemeType → Bytes → Pos → Lexeme
of_name t s p = record { type = t; pos = p; value = string_value s }

abbrev pub of_string : Bytes → Pos → Lexeme
of_string s p = record { type = string; pos = p; value = string_value s }

-- A line break after such a lexeme ends the statement.
unfoldable pub is_stop_lexeme : LexemeType → Bool
is_stop_lexeme r_paren = true
is_stop_lexeme r_brace = true
is_stop_lexeme r_bracket = true
is_stop_lexeme int = true
is_stop_lexeme float = true
is_stop_lexeme bool = true
is_stop_lexeme identifier = true
is_stop_lexeme string = true
is_stop_lexeme null = true
is_stop_lexeme print = true
is_stop_lexeme assert = true
is_stop_lexeme return = true
is_stop_lexeme _ = false
