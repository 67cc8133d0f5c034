-- ===== src/Options/Small/CompactRange.antt =====
-- `CompactRangeOptions` of src/options.rs with the glue of rocks-sys/rocks/options.cc.
pub mod Setters
use rust_rocks.Common.{
  ℕ, ◌≡◌, refl, sym, ap, ◌∙◌, Bool, true, false, Option, none, some, List, [], ◌∷◌, ◌++◌, Bytes,
  to_u8, map, length, take, take-length, fun_ext, arith,
}
use rust_rocks.Ffi.{
  Ptr, null, Outcome, done, panic, fault, M, pure, and_then, ◌>>=◌, ◌>>◌, alloc, load, store, free,
}
use rust_rocks.Options.Struct.{
  Maker, Value, flag, number, text, numbers, paths, pointer, built, wrapped, all_wrapped, Settings,
  read_struct, set_member, flag_of, put_member,
}
use rust_rocks.Options.Objects.{
  OptionsObject, OptionsWorld, db_kind, dboptions, cf_kind, cfoptions, read_kind, readoptions,
  write_kind, writeoptions, flush_kind, flushoptions, compaction_kind, compaction_options,
  compact_range_kind, compactrange_options, ingest_kind, ingestexternalfile_options, block_kind,
  block_based_table_options, plain_kind, plain_table_options, cuckoo_kind, cuckoo_table_options,
  universal_kind, universal_compaction_options, fifo_kind, fifo_compaction_options, options, holder,
  trait_object,
}
use rust_rocks.Options.Fields.{
  DbField, CfField, ReadField, WriteField, FlushField, CompactionField, CompactRangeField,
  IngestField, BlockField, PlainField, CuckooField, UniversalField, FifoField,
}
use rust_rocks.Options.Enums.{
  CompressionType, compression_type_to_int, WalRecoveryMode, wal_recovery_mode_to_int, AccessHint,
  access_hint_to_int, ReadTier, read_tier_to_int, BottommostLevelCompaction,
  bottommost_level_compaction_to_int, InfoLogLevel, info_log_level_to_int, CompactionStyle,
  compaction_style_to_int, CompactionPri, compaction_pri_to_int, CompactionStopStyle,
  compaction_stop_style_to_int, IndexType, index_type_to_int, EncodingType, encoding_type_to_int,
}

pub record CompactRangeOptions : Type 0 where
  pub raw : Ptr

-- The argument is what RocksDB's own constructor makes.
unfoldable pub rocks_compactrange_options_create : Settings CompactRangeField → M OptionsWorld Ptr
rocks_compactrange_options_create defaults = alloc (compactrange_options defaults)

unfoldable pub rocks_compactrange_options_destroy : Ptr → M OptionsWorld (Unit {0})
rocks_compactrange_options_destroy p = free p

unfoldable pub default : Settings CompactRangeField → M OptionsWorld CompactRangeOptions
unfolding rocks_compactrange_options_create
default defaults = do p ← rocks_compactrange_options_create defaults; pure (record { raw = p })

unfoldable pub drop_options : CompactRangeOptions → M OptionsWorld (Unit {0})
unfolding rocks_compactrange_options_destroy
drop_options self = rocks_compactrange_options_destroy self.raw

unfoldable pub rocks_compactrange_options_set_exclusive_manual_compaction :
    Ptr → ℕ → M OptionsWorld (Unit {0})
rocks_compactrange_options_set_exclusive_manual_compaction opt v =
    set_member compact_range_kind opt CompactRangeField.exclusive_manual_compaction (flag_of v)

unfoldable pub rocks_compactrange_options_set_change_level : Ptr → ℕ → M OptionsWorld (Unit {0})
rocks_compactrange_options_set_change_level opt v =
    set_member compact_range_kind opt CompactRangeField.change_level (flag_of v)

unfoldable pub rocks_compactrange_options_set_target_level : Ptr → ℕ → M OptionsWorld (Unit {0})
rocks_compactrange_options_set_target_level opt v =
    set_member compact_range_kind opt CompactRangeField.target_level (number v)

unfoldable pub rocks_compactrange_options_set_target_path_id : Ptr → ℕ → M OptionsWorld (Unit {0})
rocks_compactrange_options_set_target_path_id opt v =
    set_member compact_range_kind opt CompactRangeField.target_path_id (number v)

unfoldable pub rocks_compactrange_options_set_bottommost_level_compaction :
    Ptr → ℕ → M OptionsWorld (Unit {0})
rocks_compactrange_options_set_bottommost_level_compaction opt v =
    set_member compact_range_kind opt CompactRangeField.bottommost_level_compaction (number v)

unfoldable pub exclusive_manual_compaction :
    CompactRangeOptions → Bool → M OptionsWorld CompactRangeOptions
unfolding rocks_compactrange_options_set_exclusive_manual_compaction
exclusive_manual_compaction self val = do
  rocks_compactrange_options_set_exclusive_manual_compaction self.raw (to_u8 val)
  pure self

unfoldable pub change_level : CompactRangeOptions → Bool → M OptionsWorld CompactRangeOptions
unfolding rocks_compactrange_options_set_change_level
change_level self val = do
  rocks_compactrange_options_set_change_level self.raw (to_u8 val)
  pure self

unfoldable pub target_level : CompactRangeOptions → ℕ → M OptionsWorld CompactRangeOptions
unfolding rocks_compactrange_options_set_target_level
target_level self val = do rocks_compactrange_options_set_target_level self.raw val; pure self

unfoldable pub target_path_id : CompactRangeOptions → ℕ → M OptionsWorld CompactRangeOptions
unfolding rocks_compactrange_options_set_target_path_id
target_path_id self val = do rocks_compactrange_options_set_target_path_id self.raw val; pure self

unfoldable pub bottommost_level_compaction :
    CompactRangeOptions → BottommostLevelCompaction → M OptionsWorld CompactRangeOptions
unfolding rocks_compactrange_options_set_bottommost_level_compaction
    bottommost_level_compaction_to_int
bottommost_level_compaction self val = do
  rocks_compactrange_options_set_bottommost_level_compaction self.raw
      (bottommost_level_compaction_to_int val)
  pure self
