-- ===== src/Options/Read.antt =====
-- `ReadOptions` of src/options.rs with the glue of rocks-sys/rocks/options.cc.
pub mod Setters
pub mod Bounds
use rust_rocks.Common.{
  ℕ, ◌≡◌, refl, sym, ap, ◌∙◌, Bool, true, false, Option, none, some, List, [], ◌∷◌, ◌++◌, Bytes,
  to_u8, map, length, take, take-length, fun_ext, arith,
}
use rust_rocks.Ffi.{
  Ptr, null, Outcome, done, panic, fault, M, pure, and_then, ◌>>=◌, ◌>>◌, alloc, load, store, free,
}
use rust_rocks.Options.Struct.{
  Maker, Value, flag, number, text, numbers, paths, pointer, built, wrapped, all_wrapped, Settings,
  read_struct, set_member, flag_of, put_member,
}
use rust_rocks.Options.Objects.{
  OptionsObject, OptionsWorld, db_kind, dboptions, cf_kind, cfoptions, read_kind, readoptions,
  write_kind, writeoptions, flush_kind, flushoptions, compaction_kind, compaction_options,
  compact_range_kind, compactrange_options, ingest_kind, ingestexternalfile_options, block_kind,
  block_based_table_options, plain_kind, plain_table_options, cuckoo_kind, cuckoo_table_options,
  universal_kind, universal_compaction_options, fifo_kind, fifo_compaction_options, options, holder,
  trait_object,
}
use rust_rocks.Options.Fields.{
  DbField, CfField, ReadField, WriteField, FlushField, CompactionField, CompactRangeField,
  IngestField, BlockField, PlainField, CuckooField, UniversalField, FifoField,
}
use rust_rocks.Options.Enums.{
  CompressionType, compression_type_to_int, WalRecoveryMode, wal_recovery_mode_to_int, AccessHint,
  access_hint_to_int, ReadTier, read_tier_to_int, BottommostLevelCompaction,
  bottommost_level_compaction_to_int, InfoLogLevel, info_log_level_to_int, CompactionStyle,
  compaction_style_to_int, CompactionPri, compaction_pri_to_int, CompactionStopStyle,
  compaction_stop_style_to_int, IndexType, index_type_to_int, EncodingType, encoding_type_to_int,
}

pub record ReadOptions : Type 0 where
  pub raw : Ptr

-- The argument is what RocksDB's own constructor makes.
unfoldable pub rocks_readoptions_create : Settings ReadField → M OptionsWorld Ptr
rocks_readoptions_create defaults = alloc (readoptions defaults)

unfoldable pub rocks_readoptions_destroy : Ptr → M OptionsWorld (Unit {0})
rocks_readoptions_destroy p = free p

unfoldable pub default : Settings ReadField → M OptionsWorld ReadOptions
unfolding rocks_readoptions_create
default defaults = do p ← rocks_readoptions_create defaults; pure (record { raw = p })

unfoldable pub drop_options : ReadOptions → M OptionsWorld (Unit {0})
unfolding rocks_readoptions_destroy
drop_options self = rocks_readoptions_destroy self.raw

unfoldable pub rocks_readoptions_set_readahead_size : Ptr → ℕ → M OptionsWorld (Unit {0})
rocks_readoptions_set_readahead_size opt v =
    set_member read_kind opt ReadField.readahead_size (number v)

unfoldable pub rocks_readoptions_set_max_skippable_internal_keys :
    Ptr → ℕ → M OptionsWorld (Unit {0})
rocks_readoptions_set_max_skippable_internal_keys opt v =
    set_member read_kind opt ReadField.max_skippable_internal_keys (number v)

unfoldable pub rocks_readoptions_set_read_tier : Ptr → ℕ → M OptionsWorld (Unit {0})
rocks_readoptions_set_read_tier opt v = set_member read_kind opt ReadField.read_tier (number v)

unfoldable pub rocks_readoptions_set_verify_checksums : Ptr → ℕ → M OptionsWorld (Unit {0})
rocks_readoptions_set_verify_checksums opt v =
    set_member read_kind opt ReadField.verify_checksums (flag_of v)

unfoldable pub rocks_readoptions_set_fill_cache : Ptr → ℕ → M OptionsWorld (Unit {0})
rocks_readoptions_set_fill_cache opt v = set_member read_kind opt ReadField.fill_cache (flag_of v)

unfoldable pub rocks_readoptions_set_tailing : Ptr → ℕ → M OptionsWorld (Unit {0})
rocks_readoptions_set_tailing opt v = set_member read_kind opt ReadField.tailing (flag_of v)

unfoldable pub rocks_readoptions_set_managed : Ptr → ℕ → M OptionsWorld (Unit {0})
rocks_readoptions_set_managed opt v = set_member read_kind opt ReadField.managed (flag_of v)

unfoldable pub rocks_readoptions_set_total_order_seek : Ptr → ℕ → M OptionsWorld (Unit {0})
rocks_readoptions_set_total_order_seek opt v =
    set_member read_kind opt ReadField.total_order_seek (flag_of v)

unfoldable pub rocks_readoptions_set_prefix_same_as_start : Ptr → ℕ → M OptionsWorld (Unit {0})
rocks_readoptions_set_prefix_same_as_start opt v =
    set_member read_kind opt ReadField.prefix_same_as_start (flag_of v)

unfoldable pub rocks_readoptions_set_pin_data : Ptr → ℕ → M OptionsWorld (Unit {0})
rocks_readoptions_set_pin_data opt v = set_member read_kind opt ReadField.pin_data (flag_of v)

unfoldable pub rocks_readoptions_set_background_purge_on_iterator_cleanup :
    Ptr → ℕ → M OptionsWorld (Unit {0})
rocks_readoptions_set_background_purge_on_iterator_cleanup opt v =
    set_member read_kind opt ReadField.background_purge_on_iterator_cleanup (flag_of v)

unfoldable pub rocks_readoptions_set_ignore_range_deletions : Ptr → ℕ → M OptionsWorld (Unit {0})
rocks_readoptions_set_ignore_range_deletions opt v =
    set_member read_kind opt ReadField.ignore_range_deletions (flag_of v)

unfoldable pub readahead_size : ReadOptions → ℕ → M OptionsWorld ReadOptions
unfolding rocks_readoptions_set_readahead_size
readahead_size self val = do rocks_readoptions_set_readahead_size self.raw val; pure self

unfoldable pub max_skippable_internal_keys : ReadOptions → ℕ → M OptionsWorld ReadOptions
unfolding rocks_readoptions_set_max_skippable_internal_keys
max_skippable_internal_keys self val = do
  rocks_readoptions_set_max_skippable_internal_keys self.raw val
  pure self

unfoldable pub read_tier : ReadOptions → ReadTier → M OptionsWorld ReadOptions
unfolding rocks_readoptions_set_read_tier read_tier_to_int
read_tier self val = do rocks_readoptions_set_read_tier self.raw (read_tier_to_int val); pure self

unfoldable pub verify_checksums : ReadOptions → Bool → M OptionsWorld ReadOptions
unfolding rocks_readoptions_set_verify_checksums
verify_checksums self val = do
  rocks_readoptions_set_verify_checksums self.raw (to_u8 val)
  pure self

unfoldable pub fill_cache : ReadOptions → Bool → M OptionsWorld ReadOptions
unfolding rocks_readoptions_set_fill_cache
fill_cache self val = do rocks_readoptions_set_fill_cache self.raw (to_u8 val); pure self

unfoldable pub tailing : ReadOptions → Bool → M OptionsWorld ReadOptions
unfolding rocks_readoptions_set_tailing
tailing self val = do rocks_readoptions_set_tailing self.raw (to_u8 val); pure self

unfoldable pub managed : ReadOptions → Bool → M OptionsWorld ReadOptions
unfolding rocks_readoptions_set_managed
managed self val = do rocks_readoptions_set_managed self.raw (to_u8 val); pure self

unfoldable pub total_order_seek : ReadOptions → Bool → M OptionsWorld ReadOptions
unfolding rocks_readoptions_set_total_order_seek
total_order_seek self val = do
  rocks_readoptions_set_total_order_seek self.raw (to_u8 val)
  pure self

unfoldable pub prefix_same_as_start : ReadOptions → Bool → M OptionsWorld ReadOptions
unfolding rocks_readoptions_set_prefix_same_as_start
prefix_same_as_start self val = do
  rocks_readoptions_set_prefix_same_as_start self.raw (to_u8 val)
  pure self

unfoldable pub pin_data : ReadOptions → Bool → M OptionsWorld ReadOptions
unfolding rocks_readoptions_set_pin_data
pin_data self val = do rocks_readoptions_set_pin_data self.raw (to_u8 val); pure self

unfoldable pub background_purge_on_iterator_cleanup :
    ReadOptions → Bool → M OptionsWorld ReadOptions
unfolding rocks_readoptions_set_background_purge_on_iterator_cleanup
background_purge_on_iterator_cleanup self val = do
  rocks_readoptions_set_background_purge_on_iterator_cleanup self.raw (to_u8 val)
  pure self

unfoldable pub ignore_range_deletions : ReadOptions → Bool → M OptionsWorld ReadOptions
unfolding rocks_readoptions_set_ignore_range_deletions
ignore_range_deletions self val = do
  rocks_readoptions_set_ignore_range_deletions self.raw (to_u8 val)
  pure self
