-- ===== src/Value.antt =====
-- libjarl/value.h and value.cpp: typed values and their operations.
pub mod Word
pub mod Data
pub mod Arith
pub mod ArithLaws
pub mod Failures
pub mod Compare
pub mod CompareLaws
pub mod Convert
pub mod ConvertLaws
pub mod StringLaws
pub mod Utf8
pub mod Utf8Laws
pub mod Utf8Glyphs
