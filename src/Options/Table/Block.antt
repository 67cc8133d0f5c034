-- ===== src/Options/Table/Block.antt =====
-- `BlockBasedTableOptions` of src/table.rs with the glue of rocks-sys/rocks/table.cc.
pub mod Setters
pub mod Caches
use rust_rocks.Common.{
  ℕ, ◌≡◌, refl, sym, ap, ◌∙◌, Bool, true, false, Option, none, some, List, [], ◌∷◌, ◌++◌, Bytes,
  to_u8, map, length, take, take-length, fun_ext, arith,
}
use rust_rocks.Ffi.{
  Ptr, null, Outcome, done, panic, fault, M, pure, and_then, ◌>>=◌, ◌>>◌, alloc, load, store, free,
}
use rust_rocks.Options.Struct.{
  Maker, Value, flag, number, text, numbers, paths, pointer, built, wrapped, all_wrapped, Settings,
  read_struct, set_member, flag_of, put_member,
}
use rust_rocks.Options.Objects.{
  OptionsObject, OptionsWorld, db_kind, dboptions, cf_kind, cfoptions, read_kind, readoptions,
  write_kind, writeoptions, flush_kind, flushoptions, compaction_kind, compaction_options,
  compact_range_kind, compactrange_options, ingest_kind, ingestexternalfile_options, block_kind,
  block_based_table_options, plain_kind, plain_table_options, cuckoo_kind, cuckoo_table_options,
  universal_kind, universal_compaction_options, fifo_kind, fifo_compaction_options, options, holder,
  trait_object,
}
use rust_rocks.Options.Fields.{
  DbField, CfField, ReadField, WriteField, FlushField, CompactionField, CompactRangeField,
  IngestField, BlockField, PlainField, CuckooField, UniversalField, FifoField,
}
use rust_rocks.Options.Enums.{
  CompressionType, compression_type_to_int, WalRecoveryMode, wal_recovery_mode_to_int, AccessHint,
  access_hint_to_int, ReadTier, read_tier_to_int, BottommostLevelCompaction,
  bottommost_level_compaction_to_int, InfoLogLevel, info_log_level_to_int, CompactionStyle,
  compaction_style_to_int, CompactionPri, compaction_pri_to_int, CompactionStopStyle,
  compaction_stop_style_to_int, IndexType, index_type_to_int, EncodingType, encoding_type_to_int,
}

pub record BlockBasedTableOptions : Type 0 where
  pub raw : Ptr

-- The argument is what RocksDB's own constructor makes.
unfoldable pub rocks_block_based_table_options_create : Settings BlockField → M OptionsWorld Ptr
rocks_block_based_table_options_create defaults = alloc (block_based_table_options defaults)

unfoldable pub rocks_block_based_table_options_destroy : Ptr → M OptionsWorld (Unit {0})
rocks_block_based_table_options_destroy p = free p

unfoldable pub default : Settings BlockField → M OptionsWorld BlockBasedTableOptions
unfolding rocks_block_based_table_options_create
default defaults = do p ← rocks_block_based_table_options_create defaults; pure (record { raw = p })

unfoldable pub drop_options : BlockBasedTableOptions → M OptionsWorld (Unit {0})
unfolding rocks_block_based_table_options_destroy
drop_options self = rocks_block_based_table_options_destroy self.raw

unfoldable pub rocks_block_based_table_options_set_cache_index_and_filter_blocks :
    Ptr → ℕ → M OptionsWorld (Unit {0})
rocks_block_based_table_options_set_cache_index_and_filter_blocks opt v =
    set_member block_kind opt BlockField.cache_index_and_filter_blocks (flag_of v)

unfoldable pub rocks_block_based_table_options_set_cache_index_and_filter_blocks_with_high_priority :
    Ptr → ℕ → M OptionsWorld (Unit {0})
rocks_block_based_table_options_set_cache_index_and_filter_blocks_with_high_priority opt v =
    set_member block_kind opt BlockField.cache_index_and_filter_blocks_with_high_priority
      (flag_of v)

unfoldable pub rocks_block_based_table_options_set_pin_l0_filter_and_index_blocks_in_cache :
    Ptr → ℕ → M OptionsWorld (Unit {0})
rocks_block_based_table_options_set_pin_l0_filter_and_index_blocks_in_cache opt v =
    set_member block_kind opt BlockField.pin_l0_filter_and_index_blocks_in_cache (flag_of v)

unfoldable pub rocks_block_based_table_options_set_index_type : Ptr → ℕ → M OptionsWorld (Unit {0})
rocks_block_based_table_options_set_index_type opt v =
    set_member block_kind opt BlockField.index_type (number v)

unfoldable pub rocks_block_based_table_options_set_hash_index_allow_collision :
    Ptr → ℕ → M OptionsWorld (Unit {0})
rocks_block_based_table_options_set_hash_index_allow_collision opt v =
    set_member block_kind opt BlockField.hash_index_allow_collision (flag_of v)

unfoldable pub rocks_block_based_table_options_set_no_block_cache :
    Ptr → ℕ → M OptionsWorld (Unit {0})
rocks_block_based_table_options_set_no_block_cache opt v =
    set_member block_kind opt BlockField.no_block_cache (flag_of v)

unfoldable pub rocks_block_based_table_options_set_block_size : Ptr → ℕ → M OptionsWorld (Unit {0})
rocks_block_based_table_options_set_block_size opt v =
    set_member block_kind opt BlockField.block_size (number v)

unfoldable pub rocks_block_based_table_options_set_block_size_deviation :
    Ptr → ℕ → M OptionsWorld (Unit {0})
rocks_block_based_table_options_set_block_size_deviation opt v =
    set_member block_kind opt BlockField.block_size_deviation (number v)

unfoldable pub rocks_block_based_table_options_set_block_restart_interval :
    Ptr → ℕ → M OptionsWorld (Unit {0})
rocks_block_based_table_options_set_block_restart_interval opt v =
    set_member block_kind opt BlockField.block_restart_interval (number v)

unfoldable pub rocks_block_based_table_options_set_index_block_restart_interval :
    Ptr → ℕ → M OptionsWorld (Unit {0})
rocks_block_based_table_options_set_index_block_restart_interval opt v =
    set_member block_kind opt BlockField.index_block_restart_interval (number v)

unfoldable pub rocks_block_based_table_options_set_metadata_block_size :
    Ptr → ℕ → M OptionsWorld (Unit {0})
rocks_block_based_table_options_set_metadata_block_size opt v =
    set_member block_kind opt BlockField.metadata_block_size (number v)

unfoldable pub rocks_block_based_table_options_set_partition_filters :
    Ptr → ℕ → M OptionsWorld (Unit {0})
rocks_block_based_table_options_set_partition_filters opt v =
    set_member block_kind opt BlockField.partition_filters (flag_of v)

unfoldable pub rocks_block_based_table_options_set_use_delta_encoding :
    Ptr → ℕ → M OptionsWorld (Unit {0})
rocks_block_based_table_options_set_use_delta_encoding opt v =
    set_member block_kind opt BlockField.use_delta_encoding (flag_of v)

unfoldable pub rocks_block_based_table_options_set_whole_key_filtering :
    Ptr → ℕ → M OptionsWorld (Unit {0})
rocks_block_based_table_options_set_whole_key_filtering opt v =
    set_member block_kind opt BlockField.whole_key_filtering (flag_of v)

unfoldable pub rocks_block_based_table_options_set_verify_compression :
    Ptr → ℕ → M OptionsWorld (Unit {0})
rocks_block_based_table_options_set_verify_compression opt v =
    set_member block_kind opt BlockField.verify_compression (flag_of v)

unfoldable pub rocks_block_based_table_options_set_read_amp_bytes_per_bit :
    Ptr → ℕ → M OptionsWorld (Unit {0})
rocks_block_based_table_options_set_read_amp_bytes_per_bit opt v =
    set_member block_kind opt BlockField.read_amp_bytes_per_bit (number v)

unfoldable pub rocks_block_based_table_options_set_format_version :
    Ptr → ℕ → M OptionsWorld (Unit {0})
rocks_block_based_table_options_set_format_version opt v =
    set_member block_kind opt BlockField.format_version (number v)

unfoldable pub cache_index_and_filter_blocks :
    BlockBasedTableOptions → Bool → M OptionsWorld BlockBasedTableOptions
unfolding rocks_block_based_table_options_set_cache_index_and_filter_blocks
cache_index_and_filter_blocks self val = do
  rocks_block_based_table_options_set_cache_index_and_filter_blocks self.raw (to_u8 val)
  pure self

unfoldable pub cache_index_and_filter_blocks_with_high_priority :
    BlockBasedTableOptions → Bool → M OptionsWorld BlockBasedTableOptions
unfolding rocks_block_based_table_options_set_cache_index_and_filter_blocks_with_high_priority
cache_index_and_filter_blocks_with_high_priority self val = do
  rocks_block_based_table_options_set_cache_index_and_filter_blocks_with_high_priority self.raw
      (to_u8 val)
  pure self

unfoldable pub pin_l0_filter_and_index_blocks_in_cache :
    BlockBasedTableOptions → Bool → M OptionsWorld BlockBasedTableOptions
unfolding rocks_block_based_table_options_set_pin_l0_filter_and_index_blocks_in_cache
pin_l0_filter_and_index_blocks_in_cache self val = do
  rocks_block_based_table_options_set_pin_l0_filter_and_index_blocks_in_cache self.raw (to_u8 val)
  pure self

unfoldable pub index_type :
    BlockBasedTableOptions → IndexType → M OptionsWorld BlockBasedTableOptions
unfolding rocks_block_based_table_options_set_index_type index_type_to_int
index_type self val = do
  rocks_block_based_table_options_set_index_type self.raw (index_type_to_int val)
  pure self

unfoldable pub hash_index_allow_collision :
    BlockBasedTableOptions → Bool → M OptionsWorld BlockBasedTableOptions
unfolding rocks_block_based_table_options_set_hash_index_allow_collision
hash_index_allow_collision self val = do
  rocks_block_based_table_options_set_hash_index_allow_collision self.raw (to_u8 val)
  pure self

unfoldable pub no_block_cache :
    BlockBasedTableOptions → Bool → M OptionsWorld BlockBasedTableOptions
unfolding rocks_block_based_table_options_set_no_block_cache
no_block_cache self val = do
  rocks_block_based_table_options_set_no_block_cache self.raw (to_u8 val)
  pure self

unfoldable pub block_size : BlockBasedTableOptions → ℕ → M OptionsWorld BlockBasedTableOptions
unfolding rocks_block_based_table_options_set_block_size
block_size self val = do rocks_block_based_table_options_set_block_size self.raw val; pure self

unfoldable pub block_size_deviation :
    BlockBasedTableOptions → ℕ → M OptionsWorld BlockBasedTableOptions
unfolding rocks_block_based_table_options_set_block_size_deviation
block_size_deviation self val = do
  rocks_block_based_table_options_set_block_size_deviation self.raw val
  pure self

unfoldable pub block_restart_interval :
    BlockBasedTableOptions → ℕ → M OptionsWorld BlockBasedTableOptions
unfolding rocks_block_based_table_options_set_block_restart_interval
block_restart_interval self val = do
  rocks_block_based_table_options_set_block_restart_interval self.raw val
  pure self

unfoldable pub index_block_restart_interval :
    BlockBasedTableOptions → ℕ → M OptionsWorld BlockBasedTableOptions
unfolding rocks_block_based_table_options_set_index_block_restart_interval
index_block_restart_interval self val = do
  rocks_block_based_table_options_set_index_block_restart_interval self.raw val
  pure self

unfoldable pub metadata_block_size :
    BlockBasedTableOptions → ℕ → M OptionsWorld BlockBasedTableOptions
unfolding rocks_block_based_table_options_set_metadata_block_size
metadata_block_size self val = do
  rocks_block_based_table_options_set_metadata_block_size self.raw val
  pure self

unfoldable pub partition_filters :
    BlockBasedTableOptions → Bool → M OptionsWorld BlockBasedTableOptions
unfolding rocks_block_based_table_options_set_partition_filters
partition_filters self val = do
  rocks_block_based_table_options_set_partition_filters self.raw (to_u8 val)
  pure self

unfoldable pub use_delta_encoding :
    BlockBasedTableOptions → Bool → M OptionsWorld BlockBasedTableOptions
unfolding rocks_block_based_table_options_set_use_delta_encoding
use_delta_encoding self val = do
  rocks_block_based_table_options_set_use_delta_encoding self.raw (to_u8 val)
  pure self

unfoldable pub whole_key_filtering :
    BlockBasedTableOptions → Bool → M OptionsWorld BlockBasedTableOptions
unfolding rocks_block_based_table_options_set_whole_key_filtering
whole_key_filtering self val = do
  rocks_block_based_table_options_set_whole_key_filtering self.raw (to_u8 val)
  pure self

unfoldable pub verify_compression :
    BlockBasedTableOptions → Bool → M OptionsWorld BlockBasedTableOptions
unfolding rocks_block_based_table_options_set_verify_compression
verify_compression self val = do
  rocks_block_based_table_options_set_verify_compression self.raw (to_u8 val)
  pure self

unfoldable pub read_amp_bytes_per_bit :
    BlockBasedTableOptions → ℕ → M OptionsWorld BlockBasedTableOptions
unfolding rocks_block_based_table_options_set_read_amp_bytes_per_bit
read_amp_bytes_per_bit self val = do
  rocks_block_based_table_options_set_read_amp_bytes_per_bit self.raw val
  pure self

unfoldable pub format_version : BlockBasedTableOptions → ℕ → M OptionsWorld BlockBasedTableOptions
unfolding rocks_block_based_table_options_set_format_version
format_version self val = do
  rocks_block_based_table_options_set_format_version self.raw val
  pure self
