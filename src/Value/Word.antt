-- ===== src/Value/Word.antt =====
-- `jarl::Int` (bindings/jarl.h: `intptr_t`, 64 bits): the operations that libjarl/value.cpp applies
-- to it. An overflow of a signed operation is undefined in C++, and is `none` here; `/` and `%`
-- truncate towards zero.
use jarl.Common.{
  ℕ, ◌+◌, ◌/◌, ◌%◌, ◌^◌, Bool, true, false, Option, none, some, ltb, leb, if◌then◌else◌, ℤ, pos,
  negsuc, pos_part, neg_part, sub_ℕ, ◌&&◌,
}

abbrev pub int_limit : ℕ
int_limit = 2 ^ 63

-- The values of the type.
abbrev pub in_range : ℤ → Bool
in_range i = ltb (pos_part i) int_limit && leb (neg_part i) int_limit

unfoldable pub checked : ℤ → Option ℤ
checked i = if in_range i then some i else none

unfoldable pub negate : ℤ → ℤ
negate i = sub_ℕ (neg_part i) (pos_part i)

-- |i|
abbrev pub magnitude : ℤ → ℕ
magnitude i = pos_part i + neg_part i

abbrev pub is_negative : ℤ → Bool
is_negative (pos n) = false
is_negative (negsuc n) = true

abbrev pub signed : Bool → ℕ → ℤ
signed true n = sub_ℕ 0 n
signed false n = pos n

abbrev pub differ : Bool → Bool → Bool
differ true b = if b then false else true
differ false b = b

-- `a / b` and `a % b` for `b != 0`
unfoldable pub quotient : ℤ → ℤ → ℤ
quotient a b = signed (differ (is_negative a) (is_negative b)) (magnitude a / magnitude b)

unfoldable pub remainder : ℤ → ℤ → ℤ
remainder a b = signed (is_negative a) (magnitude a % magnitude b)
