-- ===== src/Options/Small.antt =====
-- The options with few members: for writes, flushes, compactions and ingestion.
pub mod Write
pub mod Flush
pub mod Compaction
pub mod CompactRange
pub mod Ingest
