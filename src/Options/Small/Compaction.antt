-- ===== src/Options/Small/Compaction.antt =====
-- `CompactionOptions` of src/options.rs with the glue of rocks-sys/rocks/options.cc.
pub mod Setters
use rust_rocks.Common.{
  ℕ, ◌≡◌, refl, sym, ap, ◌∙◌, Bool, true, false, Option, none, some, List, [], ◌∷◌, ◌++◌, Bytes,
  to_u8, map, length, take, take-length, fun_ext, arith,
}
use rust_rocks.Ffi.{
  Ptr, null, Outcome, done, panic, fault, M, pure, and_then, ◌>>=◌, ◌>>◌, alloc, load, store, free,
}
use rust_rocks.Options.Struct.{
  Maker, Value, flag, number, text, numbers, paths, pointer, built, wrapped, all_wrapped, Settings,
  read_struct, set_member, flag_of, put_member,
}
use rust_rocks.Options.Objects.{
  OptionsObject, OptionsWorld, db_kind, dboptions, cf_kind, cfoptions, read_kind, readoptions,
  write_kind, writeoptions, flush_kind, flushoptions, compaction_kind, compaction_options,
  compact_range_kind, compactrange_options, ingest_kind, ingestexternalfile_options, block_kind,
  block_based_table_options, plain_kind, plain_table_options, cuckoo_kind, cuckoo_table_options,
  universal_kind, universal_compaction_options, fifo_kind, fifo_compaction_options, options, holder,
  trait_object,
}
use rust_rocks.Options.Fields.{
  DbField, CfField, ReadField, WriteField, FlushField, CompactionField, CompactRangeField,
  IngestField, BlockField, PlainField, CuckooField, UniversalField, FifoField,
}
use rust_rocks.Options.Enums.{
  CompressionType, compression_type_to_int, WalRecoveryMode, wal_recovery_mode_to_int, AccessHint,
  access_hint_to_int, ReadTier, read_tier_to_int, BottommostLevelCompaction,
  bottommost_level_compaction_to_int, InfoLogLevel, info_log_level_to_int, CompactionStyle,
  compaction_style_to_int, CompactionPri, compaction_pri_to_int, CompactionStopStyle,
  compaction_stop_style_to_int, IndexType, index_type_to_int, EncodingType, encoding_type_to_int,
}

pub record CompactionOptions : Type 0 where
  pub raw : Ptr

-- The argument is what RocksDB's own constructor makes.
unfoldable pub rocks_compaction_options_create : Settings CompactionField → M OptionsWorld Ptr
rocks_compaction_options_create defaults = alloc (compaction_options defaults)

unfoldable pub rocks_compaction_options_destroy : Ptr → M OptionsWorld (Unit {0})
rocks_compaction_options_destroy p = free p

unfoldable pub default : Settings CompactionField → M OptionsWorld CompactionOptions
unfolding rocks_compaction_options_create
default defaults = do p ← rocks_compaction_options_create defaults; pure (record { raw = p })

unfoldable pub drop_options : CompactionOptions → M OptionsWorld (Unit {0})
unfolding rocks_compaction_options_destroy
drop_options self = rocks_compaction_options_destroy self.raw

unfoldable pub rocks_compaction_options_set_compression : Ptr → ℕ → M OptionsWorld (Unit {0})
rocks_compaction_options_set_compression opt v =
    set_member compaction_kind opt CompactionField.compression (number v)

unfoldable pub rocks_compaction_options_set_output_file_size_limit :
    Ptr → ℕ → M OptionsWorld (Unit {0})
rocks_compaction_options_set_output_file_size_limit opt v =
    set_member compaction_kind opt CompactionField.output_file_size_limit (number v)

unfoldable pub compression : CompactionOptions → CompressionType → M OptionsWorld CompactionOptions
unfolding rocks_compaction_options_set_compression compression_type_to_int
compression self val = do
  rocks_compaction_options_set_compression self.raw (compression_type_to_int val)
  pure self

unfoldable pub output_file_size_limit : CompactionOptions → ℕ → M OptionsWorld CompactionOptions
unfolding rocks_compaction_options_set_output_file_size_limit
output_file_size_limit self val = do
  rocks_compaction_options_set_output_file_size_limit self.raw val
  pure self
