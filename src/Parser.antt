-- ===== src/Parser.antt =====
-- libjarl/parser.cpp and parser.h: the precedence-climbing parser and its proofs.
pub mod State
pub mod Nud
pub mod Led
pub mod Climb
pub mod Post
pub mod Prefix
pub mod Joins
pub mod Total
pub mod Grammar
pub mod Climbing
pub mod Operands
pub mod RoundTrip
pub mod Minus
