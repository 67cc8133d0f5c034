-- ===== src/Options/Style.antt =====
-- The compaction styles of src/universal_compaction.rs and src/advanced_options.rs.
pub mod Universal
pub mod Fifo
