-- ===== src/Options.antt =====
-- The options of src/options.rs, src/table.rs, src/advanced_options.rs and
-- src/universal_compaction.rs, with the glue of rocks-sys/rocks/options.cc, table.cc and
-- universal_compaction.cc.
pub mod Fields
pub mod Enums
pub mod Struct
pub mod Objects
pub mod Assign
pub mod Chain
pub mod Small
pub mod Read
pub mod Table
pub mod Style
pub mod Db
pub mod Cf
pub mod Plain
pub mod Whole
pub mod Built
