-- ===== src/Options/Small/Ingest.antt =====
-- `IngestExternalFileOptions` of src/options.rs with the glue of rocks-sys/rocks/options.cc.
pub mod Setters
use rust_rocks.Common.{
  ℕ, ◌≡◌, refl, sym, ap, ◌∙◌, Bool, true, false, Option, none, some, List, [], ◌∷◌, ◌++◌, Bytes,
  to_u8, map, length, take, take-length, fun_ext, arith,
}
use rust_rocks.Ffi.{
  Ptr, null, Outcome, done, panic, fault, M, pure, and_then, ◌>>=◌, ◌>>◌, alloc, load, store, free,
}
use rust_rocks.Options.Struct.{
  Maker, Value, flag, number, text, numbers, paths, pointer, built, wrapped, all_wrapped, Settings,
  read_struct, set_member, flag_of, put_member,
}
use rust_rocks.Options.Objects.{
  OptionsObject, OptionsWorld, db_kind, dboptions, cf_kind, cfoptions, read_kind, readoptions,
  write_kind, writeoptions, flush_kind, flushoptions, compaction_kind, compaction_options,
  compact_range_kind, compactrange_options, ingest_kind, ingestexternalfile_options, block_kind,
  block_based_table_options, plain_kind, plain_table_options, cuckoo_kind, cuckoo_table_options,
  universal_kind, universal_compaction_options, fifo_kind, fifo_compaction_options, options, holder,
  trait_object,
}
use rust_rocks.Options.Fields.{
  DbField, CfField, ReadField, WriteField, FlushField, CompactionField, CompactRangeField,
  IngestField, BlockField, PlainField, CuckooField, UniversalField, FifoField,
}
use rust_rocks.Options.Enums.{
  CompressionType, compression_type_to_int, WalRecoveryMode, wal_recovery_mode_to_int, AccessHint,
  access_hint_to_int, ReadTier, read_tier_to_int, BottommostLevelCompaction,
  bottommost_level_compaction_to_int, InfoLogLevel, info_log_level_to_int, CompactionStyle,
  compaction_style_to_int, CompactionPri, compaction_pri_to_int, CompactionStopStyle,
  compaction_stop_style_to_int, IndexType, index_type_to_int, EncodingType, encoding_type_to_int,
}

pub record IngestExternalFileOptions : Type 0 where
  pub raw : Ptr

-- The argument is what RocksDB's own constructor makes.
unfoldable pub rocks_ingestexternalfile_options_create : Settings IngestField → M OptionsWorld Ptr
rocks_ingestexternalfile_options_create defaults = alloc (ingestexternalfile_options defaults)

unfoldable pub rocks_ingestexternalfile_options_destroy : Ptr → M OptionsWorld (Unit {0})
rocks_ingestexternalfile_options_destroy p = free p

unfoldable pub default : Settings IngestField → M OptionsWorld IngestExternalFileOptions
unfolding rocks_ingestexternalfile_options_create
default defaults = do
  p ← rocks_ingestexternalfile_options_create defaults
  pure (record { raw = p })

unfoldable pub drop_options : IngestExternalFileOptions → M OptionsWorld (Unit {0})
unfolding rocks_ingestexternalfile_options_destroy
drop_options self = rocks_ingestexternalfile_options_destroy self.raw

unfoldable pub rocks_ingestexternalfile_options_set_move_files : Ptr → ℕ → M OptionsWorld (Unit {0})
rocks_ingestexternalfile_options_set_move_files opt v =
    set_member ingest_kind opt IngestField.move_files (flag_of v)

unfoldable pub rocks_ingestexternalfile_options_set_snapshot_consistency :
    Ptr → ℕ → M OptionsWorld (Unit {0})
rocks_ingestexternalfile_options_set_snapshot_consistency opt v =
    set_member ingest_kind opt IngestField.snapshot_consistency (flag_of v)

unfoldable pub rocks_ingestexternalfile_options_set_allow_global_seqno :
    Ptr → ℕ → M OptionsWorld (Unit {0})
rocks_ingestexternalfile_options_set_allow_global_seqno opt v =
    set_member ingest_kind opt IngestField.allow_global_seqno (flag_of v)

unfoldable pub rocks_ingestexternalfile_options_set_allow_blocking_flush :
    Ptr → ℕ → M OptionsWorld (Unit {0})
rocks_ingestexternalfile_options_set_allow_blocking_flush opt v =
    set_member ingest_kind opt IngestField.allow_blocking_flush (flag_of v)

unfoldable pub rocks_ingestexternalfile_options_set_ingest_behind :
    Ptr → ℕ → M OptionsWorld (Unit {0})
rocks_ingestexternalfile_options_set_ingest_behind opt v =
    set_member ingest_kind opt IngestField.ingest_behind (flag_of v)

unfoldable pub move_files :
    IngestExternalFileOptions → Bool → M OptionsWorld IngestExternalFileOptions
unfolding rocks_ingestexternalfile_options_set_move_files
move_files self val = do
  rocks_ingestexternalfile_options_set_move_files self.raw (to_u8 val)
  pure self

unfoldable pub snapshot_consistency :
    IngestExternalFileOptions → Bool → M OptionsWorld IngestExternalFileOptions
unfolding rocks_ingestexternalfile_options_set_snapshot_consistency
snapshot_consistency self val = do
  rocks_ingestexternalfile_options_set_snapshot_consistency self.raw (to_u8 val)
  pure self

unfoldable pub allow_global_seqno :
    IngestExternalFileOptions → Bool → M OptionsWorld IngestExternalFileOptions
unfolding rocks_ingestexternalfile_options_set_allow_global_seqno
allow_global_seqno self val = do
  rocks_ingestexternalfile_options_set_allow_global_seqno self.raw (to_u8 val)
  pure self

unfoldable pub allow_blocking_flush :
    IngestExternalFileOptions → Bool → M OptionsWorld IngestExternalFileOptions
unfolding rocks_ingestexternalfile_options_set_allow_blocking_flush
allow_blocking_flush self val = do
  rocks_ingestexternalfile_options_set_allow_blocking_flush self.raw (to_u8 val)
  pure self

unfoldable pub ingest_behind :
    IngestExternalFileOptions → Bool → M OptionsWorld IngestExternalFileOptions
unfolding rocks_ingestexternalfile_options_set_ingest_behind
ingest_behind self val = do
  rocks_ingestexternalfile_options_set_ingest_behind self.raw (to_u8 val)
  pure self
