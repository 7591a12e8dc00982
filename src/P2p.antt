-- ===== src/P2p.antt =====
-- The peer-to-peer network, libp2p: the table of known nodes.
pub mod NodeTable
pub mod Tests
