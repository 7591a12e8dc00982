-- ===== src/Evm/Invariant.antt =====
-- What the rounds of the interpreter keep.
pub mod Layout
pub mod Cases
pub mod Calls
pub mod Rounds
pub mod Reach
