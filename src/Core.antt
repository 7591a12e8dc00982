-- ===== src/Core.antt =====
-- The core library, libdevcore: data structures and conversions that the rest of the chain builds on.
pub mod Maps
pub mod MemoryDb
pub mod OverlayDb
pub mod TrieCommon
pub mod CommonData
pub mod RangeMask
mod Tests
pub mod Rlp
pub mod Database
pub mod TrieDb
