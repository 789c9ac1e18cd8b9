-- ===== src/CodeGenerator.antt =====
-- libjarl/code_generator.cpp: the translation of a checked tree into code.
pub mod Names
pub mod Context
pub mod Relocate
pub mod Thread
pub mod Branch
pub mod Generate
pub mod RelocateLaws
