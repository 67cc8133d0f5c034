-- ===== src/Options/Table/Plain.antt =====
-- `PlainTableOptions` of src/table.rs with the glue of rocks-sys/rocks/table.cc.
pub mod Setters
use rust_rocks.Common.{
  ℕ, ◌≡◌, refl, sym, ap, ◌∙◌, Bool, true, false, Option, none, some, List, [], ◌∷◌, ◌++◌, Bytes,
  to_u8, map, length, take, take-length, fun_ext, arith,
}
use rust_rocks.Ffi.{
  Ptr, null, Outcome, done, panic, fault, M, pure, and_then, ◌>>=◌, ◌>>◌, alloc, load, store, free,
}
use rust_rocks.Options.Struct.{
  Maker, Value, flag, number, text, numbers, paths, pointer, built, wrapped, all_wrapped, Settings,
  read_struct, set_member, flag_of, put_member,
}
use rust_rocks.Options.Objects.{
  OptionsObject, OptionsWorld, db_kind, dboptions, cf_kind, cfoptions, read_kind, readoptions,
  write_kind, writeoptions, flush_kind, flushoptions, compaction_kind, compaction_options,
  compact_range_kind, compactrange_options, ingest_kind, ingestexternalfile_options, block_kind,
  block_based_table_options, plain_kind, plain_table_options, cuckoo_kind, cuckoo_table_options,
  universal_kind, universal_compaction_options, fifo_kind, fifo_compaction_options, options, holder,
  trait_object,
}
use rust_rocks.Options.Fields.{
  DbField, CfField, ReadField, WriteField, FlushField, CompactionField, CompactRangeField,
  IngestField, BlockField, PlainField, CuckooField, UniversalField, FifoField,
}
use rust_rocks.Options.Enums.{
  CompressionType, compression_type_to_int, WalRecoveryMode, wal_recovery_mode_to_int, AccessHint,
  access_hint_to_int, ReadTier, read_tier_to_int, BottommostLevelCompaction,
  bottommost_level_compaction_to_int, InfoLogLevel, info_log_level_to_int, CompactionStyle,
  compaction_style_to_int, CompactionPri, compaction_pri_to_int, CompactionStopStyle,
  compaction_stop_style_to_int, IndexType, index_type_to_int, EncodingType, encoding_type_to_int,
}

pub record PlainTableOptions : Type 0 where
  pub raw : Ptr

-- The argument is what RocksDB's own constructor makes.
unfoldable pub rocks_plain_table_options_create : Settings PlainField → M OptionsWorld Ptr
rocks_plain_table_options_create defaults = alloc (plain_table_options defaults)

unfoldable pub rocks_plain_table_options_destroy : Ptr → M OptionsWorld (Unit {0})
rocks_plain_table_options_destroy p = free p

unfoldable pub default : Settings PlainField → M OptionsWorld PlainTableOptions
unfolding rocks_plain_table_options_create
default defaults = do p ← rocks_plain_table_options_create defaults; pure (record { raw = p })

unfoldable pub rocks_plain_table_options_set_user_key_len : Ptr → ℕ → M OptionsWorld (Unit {0})
rocks_plain_table_options_set_user_key_len opt v =
    set_member plain_kind opt PlainField.user_key_len (number v)

unfoldable pub rocks_plain_table_options_set_bloom_bits_per_key :
    Ptr → ℕ → M OptionsWorld (Unit {0})
rocks_plain_table_options_set_bloom_bits_per_key opt v =
    set_member plain_kind opt PlainField.bloom_bits_per_key (number v)

unfoldable pub rocks_plain_table_options_set_hash_table_ratio : Ptr → ℕ → M OptionsWorld (Unit {0})
rocks_plain_table_options_set_hash_table_ratio opt v =
    set_member plain_kind opt PlainField.hash_table_ratio (number v)

unfoldable pub rocks_plain_table_options_set_index_sparseness : Ptr → ℕ → M OptionsWorld (Unit {0})
rocks_plain_table_options_set_index_sparseness opt v =
    set_member plain_kind opt PlainField.index_sparseness (number v)

unfoldable pub rocks_plain_table_options_set_huge_page_tlb_size :
    Ptr → ℕ → M OptionsWorld (Unit {0})
rocks_plain_table_options_set_huge_page_tlb_size opt v =
    set_member plain_kind opt PlainField.huge_page_tlb_size (number v)

unfoldable pub rocks_plain_table_options_set_encoding_type : Ptr → ℕ → M OptionsWorld (Unit {0})
rocks_plain_table_options_set_encoding_type opt v =
    set_member plain_kind opt PlainField.encoding_type (number v)

unfoldable pub rocks_plain_table_options_set_full_scan_mode : Ptr → ℕ → M OptionsWorld (Unit {0})
rocks_plain_table_options_set_full_scan_mode opt v =
    set_member plain_kind opt PlainField.full_scan_mode (flag_of v)

unfoldable pub rocks_plain_table_options_set_store_index_in_file :
    Ptr → ℕ → M OptionsWorld (Unit {0})
rocks_plain_table_options_set_store_index_in_file opt v =
    set_member plain_kind opt PlainField.store_index_in_file (flag_of v)

unfoldable pub user_key_len : PlainTableOptions → ℕ → M OptionsWorld PlainTableOptions
unfolding rocks_plain_table_options_set_user_key_len
user_key_len self val = do rocks_plain_table_options_set_user_key_len self.raw val; pure self

unfoldable pub bloom_bits_per_key : PlainTableOptions → ℕ → M OptionsWorld PlainTableOptions
unfolding rocks_plain_table_options_set_bloom_bits_per_key
bloom_bits_per_key self val = do
  rocks_plain_table_options_set_bloom_bits_per_key self.raw val
  pure self

unfoldable pub hash_table_ratio : PlainTableOptions → ℕ → M OptionsWorld PlainTableOptions
unfolding rocks_plain_table_options_set_hash_table_ratio
hash_table_ratio self val = do
  rocks_plain_table_options_set_hash_table_ratio self.raw val
  pure self

unfoldable pub index_sparseness : PlainTableOptions → ℕ → M OptionsWorld PlainTableOptions
unfolding rocks_plain_table_options_set_index_sparseness
index_sparseness self val = do
  rocks_plain_table_options_set_index_sparseness self.raw val
  pure self

unfoldable pub huge_page_tlb_size : PlainTableOptions → ℕ → M OptionsWorld PlainTableOptions
unfolding rocks_plain_table_options_set_huge_page_tlb_size
huge_page_tlb_size self val = do
  rocks_plain_table_options_set_huge_page_tlb_size self.raw val
  pure self

unfoldable pub encoding_type : PlainTableOptions → EncodingType → M OptionsWorld PlainTableOptions
unfolding rocks_plain_table_options_set_encoding_type encoding_type_to_int
encoding_type self val = do
  rocks_plain_table_options_set_encoding_type self.raw (encoding_type_to_int val)
  pure self

unfoldable pub full_scan_mode : PlainTableOptions → Bool → M OptionsWorld PlainTableOptions
unfolding rocks_plain_table_options_set_full_scan_mode
full_scan_mode self val = do
  rocks_plain_table_options_set_full_scan_mode self.raw (to_u8 val)
  pure self

unfoldable pub store_index_in_file : PlainTableOptions → Bool → M OptionsWorld PlainTableOptions
unfolding rocks_plain_table_options_set_store_index_in_file
store_index_in_file self val = do
  rocks_plain_table_options_set_store_index_in_file self.raw (to_u8 val)
  pure self
