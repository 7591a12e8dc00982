-- ===== src/Evm/Termination.antt =====
-- Every run of the interpreter ends: each instruction is paid for from the gas that is left.
pub mod Budget
pub mod Topics
pub mod Growing
pub mod Calling
pub mod Steps
pub mod Schedules
