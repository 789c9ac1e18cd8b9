-- ===== src/Parser/State.antt =====
-- libjarl/parser.h and parser.cpp: the state of the parser, the primitives that read lexemes and
-- report errors, and the binding powers. The state holds `lcurrent_` as what is left of the
-- lexemes and the lexeme before it. A read past the end and a failed `assert` are a `fault`.
use jarl.Common.{ℕ, ◌/◌, ◌*◌, Bool, true, false, List, [], ◌∷◌, ◌++◌, some, ◌==◌, if◌then◌else◌}
use jarl.Common.Outcome
use jarl.Common.Outcome.{Outcome, ok, fault, out_of_fuel}
use jarl.Errors.{Error, Message}
use jarl.Ast.{AstNode, AstNodeType as A, new}
use jarl.Lexeme.{Lexeme, LexemeType as L, code}

pub record ParserState : Type 0 where
  pub prev : Lexeme
  pub rest : List Lexeme
  pub errors : List Error

abbrev pub P : Type 0 → Type 0
P T = ParserState → Outcome (T × ParserState)

infixl 5 ◌>>=◌ ◌>>◌
abbrev pub ◌>>=◌ : {T U : Type 0} → P T → (T → P U) → P U
◌>>=◌ m f st = Outcome.bind (m st) (λ r. f r.0 r.1)

abbrev pub ◌>>◌ : {U : Type 0} → P (Unit {0}) → P U → P U
m >> k = m >>= λ _. k

abbrev pub pure : {T : Type 0} → T → P T
pure t st = ok (t, st)

abbrev pub stop : {T : Type 0} → P T
stop st = fault

-- def_expr_bindp, def_statement_bindp, def_block_bindp
abbrev pub expr_bindp : ℕ
expr_bindp = 0x31

abbrev pub statement_bindp : ℕ
statement_bindp = 0x21

abbrev pub block_bindp : ℕ
block_bindp = 0x11

unfoldable pub bindp : L → ℕ
unfolding code
bindp t = code t / 0x10 * 0x10

abbrev pub same_type : L → L → Bool
same_type a b = code a == code b

unfoldable pub advance : ParserState → List Lexeme → Outcome (Lexeme × ParserState)
advance st [] = fault
advance st (l ∷ r) = ok (l, record st { prev = l; rest = r })

unfoldable pub next : P Lexeme
unfolding advance
next st = advance st st.rest

unfoldable pub look : ParserState → List Lexeme → Outcome (Lexeme × ParserState)
look st [] = fault
look st (l ∷ r) = ok (l, st)

-- `*this->lcurrent_`
unfoldable pub current : P Lexeme
unfolding look
current st = look st st.rest

-- `if(this->lcurrent_->type == type) ++this->lcurrent_;`
unfoldable pub skip_if : Bool → P Bool
unfolding next
skip_if true = next >>= λ _. pure true
skip_if false = pure false

unfoldable pub check_next : L → P Bool
unfolding current skip_if
check_next type = do l ← current; skip_if (same_type l.type type)

-- D_reportError: the line is that of the lexeme before the current one.
unfoldable pub report_error : Message → P (Unit {0})
report_error msg st = ok (
  tt,
  record st { errors = st.errors ++ record { line = some st.prev.pos.0; message = msg } ∷ [] },
)

-- `new ASTNode(ASTNodeType::ParseError, (this->lcurrent_ - 1)->pos)`, after a report.
unfoldable pub fail : Message → P AstNode
unfolding report_error
fail msg = do report_error msg; λ st. ok (new A.parse_error st.prev.pos, st)

-- `if(!this->checkNext_(type)){ report; return ParseError } else k`
unfoldable pub expect : L → Message → P AstNode → P AstNode
unfolding check_next fail
expect type msg k = do found ← check_next type; if found then k else fail msg
