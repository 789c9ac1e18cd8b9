-- ===== src/SyntaxChecker.antt =====
-- libjarl/syntax_checker.cpp and syntax_checker.h: the validation of the tree. The source writes
-- the flags into the nodes: here each function returns the node with its new flags. A read of flags
-- that nobody has written, a read of a child that a node has not, and a failed `assert` are a
-- `fault`.
pub mod Check
pub mod Expect
pub mod Validate
pub mod Rules
pub mod Steps
pub mod Parts
pub mod Shapes
pub mod Sound
