-- ===== src/Tests.antt =====
-- Runs of the definitions on small inputs.
pub mod Inputs
pub mod Parser
pub mod Strings
pub mod Values
pub mod Functions
pub mod Containers
pub mod Machine
