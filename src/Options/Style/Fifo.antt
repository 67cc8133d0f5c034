-- ===== src/Options/Style/Fifo.antt =====
-- `CompactionOptionsFIFO` of src/advanced_options.rs with the glue of rocks-sys/rocks/options.cc.
pub mod Setters
use rust_rocks.Common.{
  ℕ, ◌≡◌, refl, sym, ap, ◌∙◌, Bool, true, false, Option, none, some, List, [], ◌∷◌, ◌++◌, Bytes,
  to_u8, map, length, take, take-length, fun_ext, arith,
}
use rust_rocks.Ffi.{
  Ptr, null, Outcome, done, panic, fault, M, pure, and_then, ◌>>=◌, ◌>>◌, alloc, load, store, free,
}
use rust_rocks.Options.Struct.{
  Maker, Value, flag, number, text, numbers, paths, pointer, built, wrapped, all_wrapped, Settings,
  read_struct, set_member, flag_of, put_member,
}
use rust_rocks.Options.Objects.{
  OptionsObject, OptionsWorld, db_kind, dboptions, cf_kind, cfoptions, read_kind, readoptions,
  write_kind, writeoptions, flush_kind, flushoptions, compaction_kind, compaction_options,
  compact_range_kind, compactrange_options, ingest_kind, ingestexternalfile_options, block_kind,
  block_based_table_options, plain_kind, plain_table_options, cuckoo_kind, cuckoo_table_options,
  universal_kind, universal_compaction_options, fifo_kind, fifo_compaction_options, options, holder,
  trait_object,
}
use rust_rocks.Options.Fields.{
  DbField, CfField, ReadField, WriteField, FlushField, CompactionField, CompactRangeField,
  IngestField, BlockField, PlainField, CuckooField, UniversalField, FifoField,
}
use rust_rocks.Options.Enums.{
  CompressionType, compression_type_to_int, WalRecoveryMode, wal_recovery_mode_to_int, AccessHint,
  access_hint_to_int, ReadTier, read_tier_to_int, BottommostLevelCompaction,
  bottommost_level_compaction_to_int, InfoLogLevel, info_log_level_to_int, CompactionStyle,
  compaction_style_to_int, CompactionPri, compaction_pri_to_int, CompactionStopStyle,
  compaction_stop_style_to_int, IndexType, index_type_to_int, EncodingType, encoding_type_to_int,
}

pub record CompactionOptionsFifo : Type 0 where
  pub raw : Ptr

-- The argument is what RocksDB's own constructor makes.
unfoldable pub rocks_fifo_compaction_options_create : Settings FifoField → M OptionsWorld Ptr
rocks_fifo_compaction_options_create defaults = alloc (fifo_compaction_options defaults)

unfoldable pub rocks_fifo_compaction_options_destroy : Ptr → M OptionsWorld (Unit {0})
rocks_fifo_compaction_options_destroy p = free p

unfoldable pub default : Settings FifoField → M OptionsWorld CompactionOptionsFifo
unfolding rocks_fifo_compaction_options_create
default defaults = do p ← rocks_fifo_compaction_options_create defaults; pure (record { raw = p })

unfoldable pub drop_options : CompactionOptionsFifo → M OptionsWorld (Unit {0})
unfolding rocks_fifo_compaction_options_destroy
drop_options self = rocks_fifo_compaction_options_destroy self.raw

unfoldable pub rocks_fifo_compaction_options_set_max_table_files_size :
    Ptr → ℕ → M OptionsWorld (Unit {0})
rocks_fifo_compaction_options_set_max_table_files_size opt v =
    set_member fifo_kind opt FifoField.max_table_files_size (number v)

unfoldable pub rocks_fifo_compaction_options_set_ttl : Ptr → ℕ → M OptionsWorld (Unit {0})
rocks_fifo_compaction_options_set_ttl opt v = set_member fifo_kind opt FifoField.ttl (number v)

unfoldable pub rocks_fifo_compaction_options_set_allow_compaction :
    Ptr → ℕ → M OptionsWorld (Unit {0})
rocks_fifo_compaction_options_set_allow_compaction opt v =
    set_member fifo_kind opt FifoField.allow_compaction (flag_of v)

unfoldable pub max_table_files_size :
    CompactionOptionsFifo → ℕ → M OptionsWorld CompactionOptionsFifo
unfolding rocks_fifo_compaction_options_set_max_table_files_size
max_table_files_size self val = do
  rocks_fifo_compaction_options_set_max_table_files_size self.raw val
  pure self

unfoldable pub ttl : CompactionOptionsFifo → ℕ → M OptionsWorld CompactionOptionsFifo
unfolding rocks_fifo_compaction_options_set_ttl
ttl self val = do rocks_fifo_compaction_options_set_ttl self.raw val; pure self

unfoldable pub allow_compaction :
    CompactionOptionsFifo → Bool → M OptionsWorld CompactionOptionsFifo
unfolding rocks_fifo_compaction_options_set_allow_compaction
allow_compaction self val = do
  rocks_fifo_compaction_options_set_allow_compaction self.raw (to_u8 val)
  pure self
