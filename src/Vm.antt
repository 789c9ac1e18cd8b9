-- ===== src/Vm.antt =====
-- libjarl/vm.h and libjarl/vm.cpp: the machine that runs the code.
pub mod State
pub mod Operations
pub mod Calls
pub mod Step
pub mod CallLaws
pub mod CallFaults
