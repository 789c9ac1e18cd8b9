-- ===== src/OpCodes.antt =====
-- libjarl/op_codes.h: the operations of the machine with their numbers, and the bits of a word of
-- code.
use jarl.Common.{
  ℕ, ◌+◌, ◌*◌, ◌/◌, ◌%◌, ◌^◌, Bool, List, [], ◌∷◌, Option, ◌==◌, if◌then◌else◌, get_elem?,
}

pub data OpCode : Type 0 where
  return nop push push_true push_false pop reduce write : OpCode
  add sub mul div mod_ append apply neg not_ move : OpCode
  cmp eq neq gt lt geq leq in_ get slice call recurse store borrow : OpCode
  begin_iter next_or_jmp jmp jt jf jtsc jfsc : OpCode
  create_array create_table create_range create_closure print assert : OpCode

-- The enumerators in their order: each one's number is its place.
abbrev pub enumerators : List OpCode
enumerators =
    return ∷ nop ∷ push ∷ push_true ∷ push_false ∷ pop ∷ reduce ∷ write ∷ add ∷ sub ∷ mul ∷ div
    ∷ mod_ ∷ append ∷ apply ∷ neg ∷ not_ ∷ move ∷ cmp ∷ eq ∷ neq ∷ gt ∷ lt ∷ geq ∷ leq ∷ in_ ∷ get
    ∷ slice ∷ call ∷ recurse ∷ store ∷ borrow ∷ begin_iter ∷ next_or_jmp ∷ jmp ∷ jt ∷ jf ∷ jtsc
    ∷ jfsc ∷ create_array ∷ create_table ∷ create_range ∷ create_closure ∷ print ∷ assert ∷ []

abbrev pub code_of : OpCode → ℕ
code_of return = 0
code_of nop = 1
code_of push = 2
code_of push_true = 3
code_of push_false = 4
code_of pop = 5
code_of reduce = 6
code_of write = 7
code_of add = 8
code_of sub = 9
code_of mul = 10
code_of div = 11
code_of mod_ = 12
code_of append = 13
code_of apply = 14
code_of neg = 15
code_of not_ = 16
code_of move = 17
code_of cmp = 18
code_of eq = 19
code_of neq = 20
code_of gt = 21
code_of lt = 22
code_of geq = 23
code_of leq = 24
code_of in_ = 25
code_of get = 26
code_of slice = 27
code_of call = 28
code_of recurse = 29
code_of store = 30
code_of borrow = 31
code_of begin_iter = 32
code_of next_or_jmp = 33
code_of jmp = 34
code_of jt = 35
code_of jf = 36
code_of jtsc = 37
code_of jfsc = 38
code_of create_array = 39
code_of create_table = 40
code_of create_range = 41
code_of create_closure = 42
code_of print = 43
code_of assert = 44

abbrev pub extended : ℕ
extended = 0x8000

abbrev pub extended2 : ℕ
extended2 = 0x4000

abbrev pub dest : ℕ
dest = 0x2000

abbrev pub int : ℕ
int = 0x1000

abbrev pub borrowed : ℕ
borrowed = 0x0800

abbrev pub alt1 : ℕ
alt1 = 0x0400

-- `static_cast<OpCodes::Type>(n)`
abbrev pub word : ℕ → ℕ
word n = n % 2 ^ 16

-- `w & flag`, of a flag of one bit.
abbrev pub has : ℕ → ℕ → Bool
has w flag = w / flag % 2 == 1

-- `n | flag`
abbrev pub with_flag : ℕ → ℕ → ℕ
with_flag n flag = if has n flag then n else n + flag

-- `w & Head`
abbrev pub head : ℕ → ℕ
head w = w / 0x200 * 0x200

-- The enumerator of `w & ~Head`, if there is one.
unfoldable pub decode : ℕ → Option OpCode
decode w = get_elem? enumerators (w % 0x200)
