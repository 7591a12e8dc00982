-- ===== src/Chain.antt =====
-- The chain, libethereum: so far the execution of transactions.
pub mod Executive
pub mod BlockQueue
mod Tests
