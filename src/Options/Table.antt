-- ===== src/Options/Table.antt =====
-- The table formats of src/table.rs.
pub mod Block
pub mod Plain
pub mod Cuckoo
