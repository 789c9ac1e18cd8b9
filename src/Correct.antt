-- ===== src/Correct.antt =====
-- The code generator of libjarl/code_generator.cpp and the machine of libjarl/vm.cpp together: an
-- expression that is generated and run gives the value that the language means.
pub mod Expr
pub mod Leads
pub mod Within
pub mod Emitted
pub mod Turns
pub mod Run
pub mod Moves
pub mod Outputs
pub mod Constants
pub mod Threads
pub mod Nodes
pub mod Jumps
pub mod Choice
pub mod Generates
pub mod Frames
pub mod Body
pub mod Program
pub mod Ends
pub mod Call
