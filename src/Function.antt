-- ===== src/Function.antt =====
-- libjarl/function.cpp: the lines of a function's code, and its partial applications.
pub mod Lines
pub mod Code
pub mod Positions
pub mod LinesLaws
pub mod Apply
pub mod Slots
pub mod ApplyLaws
