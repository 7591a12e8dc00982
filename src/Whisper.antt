-- ===== src/Whisper.antt =====
-- Whisper, libwhisper: the Bloom filter of topics.
pub mod BloomFilter
mod Tests
