-- ===== src/Evm.antt =====
-- The virtual machine of libevm.
pub mod Word
pub mod Instruction
pub mod Schedule
pub mod State
pub mod Gas
pub mod Bytes
pub mod Ops
pub mod Cases
pub mod Optimize
pub mod Interpreter
pub mod Growth
pub mod Shape
pub mod Arithmetic
pub mod Signed
pub mod Calls
pub mod Refinement
pub mod Duplicates
pub mod Prices
pub mod Memory
pub mod Copy
pub mod Jumps
pub mod Stack
pub mod Invariant
pub mod Termination
mod Tests
