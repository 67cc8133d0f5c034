-- ===== src/Options/Table/Cuckoo.antt =====
-- `CuckooTableOptions` of src/table.rs with the glue of rocks-sys/rocks/table.cc.
pub mod Setters
use rust_rocks.Common.{
  ℕ, ◌≡◌, refl, sym, ap, ◌∙◌, Bool, true, false, Option, none, some, List, [], ◌∷◌, ◌++◌, Bytes,
  to_u8, map, length, take, take-length, fun_ext, arith,
}
use rust_rocks.Ffi.{
  Ptr, null, Outcome, done, panic, fault, M, pure, and_then, ◌>>=◌, ◌>>◌, alloc, load, store, free,
}
use rust_rocks.Options.Struct.{
  Maker, Value, flag, number, text, numbers, paths, pointer, built, wrapped, all_wrapped, Settings,
  read_struct, set_member, flag_of, put_member,
}
use rust_rocks.Options.Objects.{
  OptionsObject, OptionsWorld, db_kind, dboptions, cf_kind, cfoptions, read_kind, readoptions,
  write_kind, writeoptions, flush_kind, flushoptions, compaction_kind, compaction_options,
  compact_range_kind, compactrange_options, ingest_kind, ingestexternalfile_options, block_kind,
  block_based_table_options, plain_kind, plain_table_options, cuckoo_kind, cuckoo_table_options,
  universal_kind, universal_compaction_options, fifo_kind, fifo_compaction_options, options, holder,
  trait_object,
}
use rust_rocks.Options.Fields.{
  DbField, CfField, ReadField, WriteField, FlushField, CompactionField, CompactRangeField,
  IngestField, BlockField, PlainField, CuckooField, UniversalField, FifoField,
}
use rust_rocks.Options.Enums.{
  CompressionType, compression_type_to_int, WalRecoveryMode, wal_recovery_mode_to_int, AccessHint,
  access_hint_to_int, ReadTier, read_tier_to_int, BottommostLevelCompaction,
  bottommost_level_compaction_to_int, InfoLogLevel, info_log_level_to_int, CompactionStyle,
  compaction_style_to_int, CompactionPri, compaction_pri_to_int, CompactionStopStyle,
  compaction_stop_style_to_int, IndexType, index_type_to_int, EncodingType, encoding_type_to_int,
}

pub record CuckooTableOptions : Type 0 where
  pub raw : Ptr

-- The argument is what RocksDB's own constructor makes.
unfoldable pub rocks_cuckoo_table_options_create : Settings CuckooField → M OptionsWorld Ptr
rocks_cuckoo_table_options_create defaults = alloc (cuckoo_table_options defaults)

unfoldable pub rocks_cuckoo_table_options_destroy : Ptr → M OptionsWorld (Unit {0})
rocks_cuckoo_table_options_destroy p = free p

unfoldable pub default : Settings CuckooField → M OptionsWorld CuckooTableOptions
unfolding rocks_cuckoo_table_options_create
default defaults = do p ← rocks_cuckoo_table_options_create defaults; pure (record { raw = p })

unfoldable pub rocks_cuckoo_table_options_set_hash_table_ratio : Ptr → ℕ → M OptionsWorld (Unit {0})
rocks_cuckoo_table_options_set_hash_table_ratio opt v =
    set_member cuckoo_kind opt CuckooField.hash_table_ratio (number v)

unfoldable pub rocks_cuckoo_table_options_set_max_search_depth : Ptr → ℕ → M OptionsWorld (Unit {0})
rocks_cuckoo_table_options_set_max_search_depth opt v =
    set_member cuckoo_kind opt CuckooField.max_search_depth (number v)

unfoldable pub rocks_cuckoo_table_options_set_cuckoo_block_size :
    Ptr → ℕ → M OptionsWorld (Unit {0})
rocks_cuckoo_table_options_set_cuckoo_block_size opt v =
    set_member cuckoo_kind opt CuckooField.cuckoo_block_size (number v)

unfoldable pub rocks_cuckoo_table_options_set_identity_as_first_hash :
    Ptr → ℕ → M OptionsWorld (Unit {0})
rocks_cuckoo_table_options_set_identity_as_first_hash opt v =
    set_member cuckoo_kind opt CuckooField.identity_as_first_hash (flag_of v)

unfoldable pub rocks_cuckoo_table_options_set_use_module_hash : Ptr → ℕ → M OptionsWorld (Unit {0})
rocks_cuckoo_table_options_set_use_module_hash opt v =
    set_member cuckoo_kind opt CuckooField.use_module_hash (flag_of v)

unfoldable pub hash_table_ratio : CuckooTableOptions → ℕ → M OptionsWorld CuckooTableOptions
unfolding rocks_cuckoo_table_options_set_hash_table_ratio
hash_table_ratio self val = do
  rocks_cuckoo_table_options_set_hash_table_ratio self.raw val
  pure self

unfoldable pub max_search_depth : CuckooTableOptions → ℕ → M OptionsWorld CuckooTableOptions
unfolding rocks_cuckoo_table_options_set_max_search_depth
max_search_depth self val = do
  rocks_cuckoo_table_options_set_max_search_depth self.raw val
  pure self

unfoldable pub cuckoo_block_size : CuckooTableOptions → ℕ → M OptionsWorld CuckooTableOptions
unfolding rocks_cuckoo_table_options_set_cuckoo_block_size
cuckoo_block_size self val = do
  rocks_cuckoo_table_options_set_cuckoo_block_size self.raw val
  pure self

unfoldable pub identity_as_first_hash :
    CuckooTableOptions → Bool → M OptionsWorld CuckooTableOptions
unfolding rocks_cuckoo_table_options_set_identity_as_first_hash
identity_as_first_hash self val = do
  rocks_cuckoo_table_options_set_identity_as_first_hash self.raw (to_u8 val)
  pure self

unfoldable pub use_module_hash : CuckooTableOptions → Bool → M OptionsWorld CuckooTableOptions
unfolding rocks_cuckoo_table_options_set_use_module_hash
use_module_hash self val = do
  rocks_cuckoo_table_options_set_use_module_hash self.raw (to_u8 val)
  pure self
