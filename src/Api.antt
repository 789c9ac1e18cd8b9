-- ===== src/Api.antt =====
-- libjarl/api.cpp: `jarl::execute`.
pub mod Execute
pub mod ExecuteLaws
