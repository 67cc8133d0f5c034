-- ===== src/Options/Enums.antt =====
-- The enums that options take (src/options.rs, src/advanced_options.rs, src/universal_compaction.rs,
-- src/table.rs and src/env.rs), and the integers that `mem::transmute` makes of them.
use rust_rocks.Common.{ℕ}

pub data CompressionType : Type 0 where
  no_compression snappy_compression zlib_compression bzip2_compression lz4_compression
        lz4_hc_compression xpress_compression zstd zstd_not_final_compression
        disable_compression_option :
      CompressionType

unfoldable pub compression_type_to_int : CompressionType → ℕ
compression_type_to_int CompressionType.no_compression = 0
compression_type_to_int CompressionType.snappy_compression = 1
compression_type_to_int CompressionType.zlib_compression = 2
compression_type_to_int CompressionType.bzip2_compression = 3
compression_type_to_int CompressionType.lz4_compression = 4
compression_type_to_int CompressionType.lz4_hc_compression = 5
compression_type_to_int CompressionType.xpress_compression = 6
compression_type_to_int CompressionType.zstd = 7
compression_type_to_int CompressionType.zstd_not_final_compression = 64
compression_type_to_int CompressionType.disable_compression_option = 255

pub data WalRecoveryMode : Type 0 where
  tolerate_corrupted_tail_records absolute_consistency point_in_time_recovery
        skip_any_corrupted_records :
      WalRecoveryMode

unfoldable pub wal_recovery_mode_to_int : WalRecoveryMode → ℕ
wal_recovery_mode_to_int WalRecoveryMode.tolerate_corrupted_tail_records = 0
wal_recovery_mode_to_int WalRecoveryMode.absolute_consistency = 1
wal_recovery_mode_to_int WalRecoveryMode.point_in_time_recovery = 2
wal_recovery_mode_to_int WalRecoveryMode.skip_any_corrupted_records = 3

pub data AccessHint : Type 0 where
  none normal sequential will_need : AccessHint

unfoldable pub access_hint_to_int : AccessHint → ℕ
access_hint_to_int AccessHint.none = 0
access_hint_to_int AccessHint.normal = 1
access_hint_to_int AccessHint.sequential = 2
access_hint_to_int AccessHint.will_need = 3

pub data ReadTier : Type 0 where
  read_all_tier block_cache_tier persisted_tier : ReadTier

unfoldable pub read_tier_to_int : ReadTier → ℕ
read_tier_to_int ReadTier.read_all_tier = 0
read_tier_to_int ReadTier.block_cache_tier = 1
read_tier_to_int ReadTier.persisted_tier = 2

pub data BottommostLevelCompaction : Type 0 where
  skip if_have_compaction_filter force : BottommostLevelCompaction

unfoldable pub bottommost_level_compaction_to_int : BottommostLevelCompaction → ℕ
bottommost_level_compaction_to_int BottommostLevelCompaction.skip = 0
bottommost_level_compaction_to_int BottommostLevelCompaction.if_have_compaction_filter = 1
bottommost_level_compaction_to_int BottommostLevelCompaction.force = 2

pub data InfoLogLevel : Type 0 where
  debug info warn error fatal header : InfoLogLevel

unfoldable pub info_log_level_to_int : InfoLogLevel → ℕ
info_log_level_to_int InfoLogLevel.debug = 0
info_log_level_to_int InfoLogLevel.info = 1
info_log_level_to_int InfoLogLevel.warn = 2
info_log_level_to_int InfoLogLevel.error = 3
info_log_level_to_int InfoLogLevel.fatal = 4
info_log_level_to_int InfoLogLevel.header = 5

pub data CompactionStyle : Type 0 where
  compaction_style_level compaction_style_universal compaction_style_fifo compaction_style_none :
      CompactionStyle

unfoldable pub compaction_style_to_int : CompactionStyle → ℕ
compaction_style_to_int CompactionStyle.compaction_style_level = 0
compaction_style_to_int CompactionStyle.compaction_style_universal = 1
compaction_style_to_int CompactionStyle.compaction_style_fifo = 2
compaction_style_to_int CompactionStyle.compaction_style_none = 3

pub data CompactionPri : Type 0 where
  by_compensated_size oldest_largest_seq_first oldest_smallest_seq_first min_overlapping_ratio :
      CompactionPri

unfoldable pub compaction_pri_to_int : CompactionPri → ℕ
compaction_pri_to_int CompactionPri.by_compensated_size = 0
compaction_pri_to_int CompactionPri.oldest_largest_seq_first = 1
compaction_pri_to_int CompactionPri.oldest_smallest_seq_first = 2
compaction_pri_to_int CompactionPri.min_overlapping_ratio = 3

pub data CompactionStopStyle : Type 0 where
  similar_size total_size : CompactionStopStyle

unfoldable pub compaction_stop_style_to_int : CompactionStopStyle → ℕ
compaction_stop_style_to_int CompactionStopStyle.similar_size = 0
compaction_stop_style_to_int CompactionStopStyle.total_size = 1

pub data IndexType : Type 0 where
  binary_search hash_search two_level_index_search : IndexType

unfoldable pub index_type_to_int : IndexType → ℕ
index_type_to_int IndexType.binary_search = 0
index_type_to_int IndexType.hash_search = 1
index_type_to_int IndexType.two_level_index_search = 2

pub data EncodingType : Type 0 where
  plain prefix : EncodingType

unfoldable pub encoding_type_to_int : EncodingType → ℕ
encoding_type_to_int EncodingType.plain = 0
encoding_type_to_int EncodingType.prefix = 1
