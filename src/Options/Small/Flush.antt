-- ===== src/Options/Small/Flush.antt =====
-- `FlushOptions` of src/options.rs with the glue of rocks-sys/rocks/options.cc.
pub mod Setters
use rust_rocks.Common.{
  ℕ, ◌≡◌, refl, sym, ap, ◌∙◌, Bool, true, false, Option, none, some, List, [], ◌∷◌, ◌++◌, Bytes,
  to_u8, map, length, take, take-length, fun_ext, arith,
}
use rust_rocks.Ffi.{
  Ptr, null, Outcome, done, panic, fault, M, pure, and_then, ◌>>=◌, ◌>>◌, alloc, load, store, free,
}
use rust_rocks.Options.Struct.{
  Maker, Value, flag, number, text, numbers, paths, pointer, built, wrapped, all_wrapped, Settings,
  read_struct, set_member, flag_of, put_member,
}
use rust_rocks.Options.Objects.{
  OptionsObject, OptionsWorld, db_kind, dboptions, cf_kind, cfoptions, read_kind, readoptions,
  write_kind, writeoptions, flush_kind, flushoptions, compaction_kind, compaction_options,
  compact_range_kind, compactrange_options, ingest_kind, ingestexternalfile_options, block_kind,
  block_based_table_options, plain_kind, plain_table_options, cuckoo_kind, cuckoo_table_options,
  universal_kind, universal_compaction_options, fifo_kind, fifo_compaction_options, options, holder,
  trait_object,
}
use rust_rocks.Options.Fields.{
  DbField, CfField, ReadField, WriteField, FlushField, CompactionField, CompactRangeField,
  IngestField, BlockField, PlainField, CuckooField, UniversalField, FifoField,
}
use rust_rocks.Options.Enums.{
  CompressionType, compression_type_to_int, WalRecoveryMode, wal_recovery_mode_to_int, AccessHint,
  access_hint_to_int, ReadTier, read_tier_to_int, BottommostLevelCompaction,
  bottommost_level_compaction_to_int, InfoLogLevel, info_log_level_to_int, CompactionStyle,
  compaction_style_to_int, CompactionPri, compaction_pri_to_int, CompactionStopStyle,
  compaction_stop_style_to_int, IndexType, index_type_to_int, EncodingType, encoding_type_to_int,
}

pub record FlushOptions : Type 0 where
  pub raw : Ptr

-- The argument is what RocksDB's own constructor makes.
unfoldable pub rocks_flushoptions_create : Settings FlushField → M OptionsWorld Ptr
rocks_flushoptions_create defaults = alloc (flushoptions defaults)

unfoldable pub rocks_flushoptions_destroy : Ptr → M OptionsWorld (Unit {0})
rocks_flushoptions_destroy p = free p

unfoldable pub default : Settings FlushField → M OptionsWorld FlushOptions
unfolding rocks_flushoptions_create
default defaults = do p ← rocks_flushoptions_create defaults; pure (record { raw = p })

unfoldable pub drop_options : FlushOptions → M OptionsWorld (Unit {0})
unfolding rocks_flushoptions_destroy
drop_options self = rocks_flushoptions_destroy self.raw

unfoldable pub rocks_flushoptions_set_wait : Ptr → ℕ → M OptionsWorld (Unit {0})
rocks_flushoptions_set_wait opt v = set_member flush_kind opt FlushField.wait (flag_of v)

unfoldable pub wait : FlushOptions → Bool → M OptionsWorld FlushOptions
unfolding rocks_flushoptions_set_wait
wait self val = do rocks_flushoptions_set_wait self.raw (to_u8 val); pure self
