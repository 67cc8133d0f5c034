-- ===== src/Plugins.antt =====
-- User code that the library calls back through rocks-sys/rocks/ctypes.hpp: src/merge_operator.rs,
-- src/compaction_filter.rs and src/listener.rs.
pub mod Merge
pub mod FullMerge
pub mod Filter
pub mod Listener
