-- ===== src/Options/Db.antt =====
-- `DBOptions` of src/options.rs: the object, its setters of flags and of numbers with their glue, and the
-- other setters.
pub mod Object
pub mod FlagGlue
pub mod Flags
pub mod NumberGlue
pub mod Numbers
pub mod Others
pub mod Shared
pub mod Kept
pub mod Unset
pub mod FlagSetters
pub mod NumberSetters
pub mod Setters
