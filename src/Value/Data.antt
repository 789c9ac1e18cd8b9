-- ===== src/Value/Data.antt =====
-- libjarl/value.h: the tagged union `TypedValue` and what its operations can end in. Functions,
-- partial applications, arrays, tables, iterators and borrowed values are addresses. A `String` is
-- its bytes: strings are immutable. The floating-point operations are the processor's, and enter as
-- a record without laws.
use jarl.Common.{ℕ, ℤ, Bool, Option}
use jarl.Lexeme.{Float, Bytes}

pub data TypeTag : Type 0 where
  none null ptr bool int float string func partial array table iterator borrow : TypeTag

pub data TypedValue : Type 0 where
  none null : TypedValue
  ptr : ℕ → TypedValue
  bool : Bool → TypedValue
  int : ℤ → TypedValue
  float : Float → TypedValue
  string : Bytes → TypedValue
  func partial array table iterator borrow : ℕ → TypedValue

unfoldable pub tag : TypedValue → TypeTag
tag none = TypeTag.none
tag null = TypeTag.null
tag (ptr _) = TypeTag.ptr
tag (bool _) = TypeTag.bool
tag (int _) = TypeTag.int
tag (float _) = TypeTag.float
tag (string _) = TypeTag.string
tag (func _) = TypeTag.func
tag (partial _) = TypeTag.partial
tag (array _) = TypeTag.array
tag (table _) = TypeTag.table
tag (iterator _) = TypeTag.iterator
tag (borrow _) = TypeTag.borrow

-- How an operation ends: with its value, by `errorJmp` with a code, or undefined.
pub data Failure : Type 0 where
  type_error division_by_zero index_error lookup_error bad_conversion : Failure

pub data Result {ℓ} (T : Type ℓ) : Type ℓ where
  ok : T → Result T
  error_jmp : Failure → Result T
  undefined : Result T

-- What libjarl/value.cpp uses of `double` and `float`.
pub record FloatOps : Type 0 where
  pub fadd : Float → Float → Float
  pub fsub : Float → Float → Float
  pub fmul : Float → Float → Float
  pub fdiv : Float → Float → Float
  pub fmod : Float → Float → Float
  pub fneg : Float → Float
  pub of_int : ℤ → Float
  -- `static_cast<Int>(f)`, undefined out of range
  pub to_int : Float → Option ℤ
  -- `(double)(float)f`
  pub narrow : Float → Float
  pub is_positive : Float → Bool
  pub is_negative : Float → Bool
  -- `static_cast<bool>(f)`
  pub is_nonzero : Float → Bool
