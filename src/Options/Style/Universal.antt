-- ===== src/Options/Style/Universal.antt =====
-- `CompactionOptionsUniversal` of src/universal_compaction.rs with the glue of rocks-sys/rocks/universal_compaction.cc.
pub mod Setters
use rust_rocks.Common.{
  ℕ, ◌≡◌, refl, sym, ap, ◌∙◌, Bool, true, false, Option, none, some, List, [], ◌∷◌, ◌++◌, Bytes,
  to_u8, map, length, take, take-length, fun_ext, arith,
}
use rust_rocks.Ffi.{
  Ptr, null, Outcome, done, panic, fault, M, pure, and_then, ◌>>=◌, ◌>>◌, alloc, load, store, free,
}
use rust_rocks.Options.Struct.{
  Maker, Value, flag, number, text, numbers, paths, pointer, built, wrapped, all_wrapped, Settings,
  read_struct, set_member, flag_of, put_member,
}
use rust_rocks.Options.Objects.{
  OptionsObject, OptionsWorld, db_kind, dboptions, cf_kind, cfoptions, read_kind, readoptions,
  write_kind, writeoptions, flush_kind, flushoptions, compaction_kind, compaction_options,
  compact_range_kind, compactrange_options, ingest_kind, ingestexternalfile_options, block_kind,
  block_based_table_options, plain_kind, plain_table_options, cuckoo_kind, cuckoo_table_options,
  universal_kind, universal_compaction_options, fifo_kind, fifo_compaction_options, options, holder,
  trait_object,
}
use rust_rocks.Options.Fields.{
  DbField, CfField, ReadField, WriteField, FlushField, CompactionField, CompactRangeField,
  IngestField, BlockField, PlainField, CuckooField, UniversalField, FifoField,
}
use rust_rocks.Options.Enums.{
  CompressionType, compression_type_to_int, WalRecoveryMode, wal_recovery_mode_to_int, AccessHint,
  access_hint_to_int, ReadTier, read_tier_to_int, BottommostLevelCompaction,
  bottommost_level_compaction_to_int, InfoLogLevel, info_log_level_to_int, CompactionStyle,
  compaction_style_to_int, CompactionPri, compaction_pri_to_int, CompactionStopStyle,
  compaction_stop_style_to_int, IndexType, index_type_to_int, EncodingType, encoding_type_to_int,
}

pub record CompactionOptionsUniversal : Type 0 where
  pub raw : Ptr

-- The argument is what RocksDB's own constructor makes.
unfoldable pub rocks_universal_compaction_options_create :
    Settings UniversalField → M OptionsWorld Ptr
rocks_universal_compaction_options_create defaults = alloc (universal_compaction_options defaults)

unfoldable pub rocks_universal_compaction_options_destroy : Ptr → M OptionsWorld (Unit {0})
rocks_universal_compaction_options_destroy p = free p

unfoldable pub default : Settings UniversalField → M OptionsWorld CompactionOptionsUniversal
unfolding rocks_universal_compaction_options_create
default defaults = do
  p ← rocks_universal_compaction_options_create defaults
  pure (record { raw = p })

unfoldable pub drop_options : CompactionOptionsUniversal → M OptionsWorld (Unit {0})
unfolding rocks_universal_compaction_options_destroy
drop_options self = rocks_universal_compaction_options_destroy self.raw

unfoldable pub rocks_universal_compaction_options_set_size_ratio :
    Ptr → ℕ → M OptionsWorld (Unit {0})
rocks_universal_compaction_options_set_size_ratio opt v =
    set_member universal_kind opt UniversalField.size_ratio (number v)

unfoldable pub rocks_universal_compaction_options_set_min_merge_width :
    Ptr → ℕ → M OptionsWorld (Unit {0})
rocks_universal_compaction_options_set_min_merge_width opt v =
    set_member universal_kind opt UniversalField.min_merge_width (number v)

unfoldable pub rocks_universal_compaction_options_set_max_merge_width :
    Ptr → ℕ → M OptionsWorld (Unit {0})
rocks_universal_compaction_options_set_max_merge_width opt v =
    set_member universal_kind opt UniversalField.max_merge_width (number v)

unfoldable pub rocks_universal_compaction_options_set_max_size_amplification_percent :
    Ptr → ℕ → M OptionsWorld (Unit {0})
rocks_universal_compaction_options_set_max_size_amplification_percent opt v =
    set_member universal_kind opt UniversalField.max_size_amplification_percent (number v)

unfoldable pub rocks_universal_compaction_options_set_compression_size_percent :
    Ptr → ℕ → M OptionsWorld (Unit {0})
rocks_universal_compaction_options_set_compression_size_percent opt v =
    set_member universal_kind opt UniversalField.compression_size_percent (number v)

unfoldable pub rocks_universal_compaction_options_set_stop_style :
    Ptr → ℕ → M OptionsWorld (Unit {0})
rocks_universal_compaction_options_set_stop_style opt v =
    set_member universal_kind opt UniversalField.stop_style (number v)

unfoldable pub rocks_universal_compaction_options_set_allow_trivial_move :
    Ptr → ℕ → M OptionsWorld (Unit {0})
rocks_universal_compaction_options_set_allow_trivial_move opt v =
    set_member universal_kind opt UniversalField.allow_trivial_move (flag_of v)

unfoldable pub size_ratio :
    CompactionOptionsUniversal → ℕ → M OptionsWorld CompactionOptionsUniversal
unfolding rocks_universal_compaction_options_set_size_ratio
size_ratio self val = do rocks_universal_compaction_options_set_size_ratio self.raw val; pure self

unfoldable pub min_merge_width :
    CompactionOptionsUniversal → ℕ → M OptionsWorld CompactionOptionsUniversal
unfolding rocks_universal_compaction_options_set_min_merge_width
min_merge_width self val = do
  rocks_universal_compaction_options_set_min_merge_width self.raw val
  pure self

unfoldable pub max_merge_width :
    CompactionOptionsUniversal → ℕ → M OptionsWorld CompactionOptionsUniversal
unfolding rocks_universal_compaction_options_set_max_merge_width
max_merge_width self val = do
  rocks_universal_compaction_options_set_max_merge_width self.raw val
  pure self

unfoldable pub max_size_amplification_percent :
    CompactionOptionsUniversal → ℕ → M OptionsWorld CompactionOptionsUniversal
unfolding rocks_universal_compaction_options_set_max_size_amplification_percent
max_size_amplification_percent self val = do
  rocks_universal_compaction_options_set_max_size_amplification_percent self.raw val
  pure self

unfoldable pub compression_size_percent :
    CompactionOptionsUniversal → ℕ → M OptionsWorld CompactionOptionsUniversal
unfolding rocks_universal_compaction_options_set_compression_size_percent
compression_size_percent self val = do
  rocks_universal_compaction_options_set_compression_size_percent self.raw val
  pure self

unfoldable pub stop_style :
    CompactionOptionsUniversal → CompactionStopStyle → M OptionsWorld CompactionOptionsUniversal
unfolding rocks_universal_compaction_options_set_stop_style compaction_stop_style_to_int
stop_style self val = do
  rocks_universal_compaction_options_set_stop_style self.raw (compaction_stop_style_to_int val)
  pure self

unfoldable pub allow_trivial_move :
    CompactionOptionsUniversal → Bool → M OptionsWorld CompactionOptionsUniversal
unfolding rocks_universal_compaction_options_set_allow_trivial_move
allow_trivial_move self val = do
  rocks_universal_compaction_options_set_allow_trivial_move self.raw (to_u8 val)
  pure self
