-- ===== src/Options/Fields.antt =====
-- The members of the native options structs that the glue writes (rocks-sys/rocks/options.cc,
-- table.cc and universal_compaction.cc), under their C++ names. `window_bits`, `level`, `strategy`
-- and `max_dict_bytes` of `CfField` are those of `compression_opts`, and `upper_bound` is the slice
-- that `rocks_readoptions_t` keeps beside its `ReadOptions`.

pub data DbField : Type 0 where
  create_if_missing error_if_exists paranoid_checks info_log_level max_open_files : DbField
  max_file_opening_threads max_total_wal_size use_fsync : DbField
  delete_obsolete_files_period_micros max_background_jobs max_subcompactions : DbField
  max_log_file_size log_file_time_to_roll keep_log_file_num recycle_log_file_num : DbField
  max_manifest_file_size table_cache_numshardbits wal_ttl_seconds wal_size_limit_mb : DbField
  manifest_preallocation_size allow_mmap_reads allow_mmap_writes use_direct_reads : DbField
  use_direct_io_for_flush_and_compaction allow_fallocate is_fd_close_on_exec : DbField
  stats_dump_period_sec advise_random_on_open db_write_buffer_size : DbField
  new_table_reader_for_compaction_inputs compaction_readahead_size : DbField
  random_access_max_buffer_size writable_file_max_buffer_size use_adaptive_mutex : DbField
  bytes_per_sync wal_bytes_per_sync enable_thread_tracking delayed_write_rate : DbField
  allow_concurrent_memtable_write enable_write_thread_adaptive_yield : DbField
  write_thread_max_yield_usec write_thread_slow_yield_usec skip_stats_update_on_db_open : DbField
  wal_recovery_mode allow_2pc fail_if_options_file_error dump_malloc_stats : DbField
  avoid_flush_during_recovery avoid_flush_during_shutdown allow_ingest_behind : DbField
  concurrent_prepare manual_wal_flush create_missing_column_families env rate_limiter : DbField
  info_log statistics db_paths db_log_dir wal_dir write_buffer_manager : DbField
  access_hint_on_compaction_start listeners row_cache : DbField

pub DbField-discrete : Discrete DbField
DbField-discrete = hlevel

pub data CfField : Type 0 where
  write_buffer_size compression bottommost_compression : CfField
  level0_file_num_compaction_trigger max_bytes_for_level_base disable_auto_compactions : CfField
  max_write_buffer_number min_write_buffer_number_to_merge : CfField
  max_write_buffer_number_to_maintain inplace_update_support inplace_update_num_locks : CfField
  memtable_prefix_bloom_size_ratio memtable_huge_page_size bloom_locality : CfField
  arena_block_size num_levels level0_slowdown_writes_trigger level0_stop_writes_trigger : CfField
  target_file_size_base target_file_size_multiplier level_compaction_dynamic_level_bytes : CfField
  max_bytes_for_level_multiplier max_compaction_bytes : CfField
  soft_pending_compaction_bytes_limit hard_pending_compaction_bytes_limit : CfField
  compaction_style compaction_pri max_sequential_skip_in_iterations : CfField
  max_successive_merges optimize_filters_for_hits paranoid_file_checks : CfField
  force_consistency_checks report_bg_io_stats comparator merge_operator : CfField
  compaction_filter window_bits level strategy max_dict_bytes prefix_extractor : CfField
  table_factory memtable_insert_with_hint_prefix_extractor compression_per_level : CfField
  max_bytes_for_level_multiplier_additional compaction_options_universal : CfField
  compaction_options_fifo memtable_factory table_properties_collector_factories : CfField

pub CfField-discrete : Discrete CfField
CfField-discrete = hlevel

pub data ReadField : Type 0 where
  readahead_size max_skippable_internal_keys read_tier verify_checksums fill_cache : ReadField
  tailing managed total_order_seek prefix_same_as_start pin_data : ReadField
  background_purge_on_iterator_cleanup ignore_range_deletions snapshot : ReadField
  iterate_upper_bound upper_bound : ReadField

pub ReadField-discrete : Discrete ReadField
ReadField-discrete = hlevel

pub data WriteField : Type 0 where
  sync disable_wal ignore_missing_column_families no_slowdown low_pri : WriteField

pub WriteField-discrete : Discrete WriteField
WriteField-discrete = hlevel

pub data FlushField : Type 0 where
  wait : FlushField

pub FlushField-discrete : Discrete FlushField
FlushField-discrete = hlevel

pub data CompactionField : Type 0 where
  compression output_file_size_limit : CompactionField

pub CompactionField-discrete : Discrete CompactionField
CompactionField-discrete = hlevel

pub data CompactRangeField : Type 0 where
  exclusive_manual_compaction change_level target_level target_path_id : CompactRangeField
  bottommost_level_compaction : CompactRangeField

pub CompactRangeField-discrete : Discrete CompactRangeField
CompactRangeField-discrete = hlevel

pub data IngestField : Type 0 where
  move_files snapshot_consistency allow_global_seqno allow_blocking_flush : IngestField
  ingest_behind : IngestField

pub IngestField-discrete : Discrete IngestField
IngestField-discrete = hlevel

pub data BlockField : Type 0 where
  cache_index_and_filter_blocks cache_index_and_filter_blocks_with_high_priority : BlockField
  pin_l0_filter_and_index_blocks_in_cache index_type hash_index_allow_collision : BlockField
  no_block_cache block_size block_size_deviation block_restart_interval : BlockField
  index_block_restart_interval metadata_block_size partition_filters : BlockField
  use_delta_encoding whole_key_filtering verify_compression read_amp_bytes_per_bit : BlockField
  format_version block_cache persistent_cache block_cache_compressed filter_policy : BlockField

pub BlockField-discrete : Discrete BlockField
BlockField-discrete = hlevel

pub data PlainField : Type 0 where
  user_key_len bloom_bits_per_key hash_table_ratio index_sparseness : PlainField
  huge_page_tlb_size encoding_type full_scan_mode store_index_in_file : PlainField

pub PlainField-discrete : Discrete PlainField
PlainField-discrete = hlevel

pub data CuckooField : Type 0 where
  hash_table_ratio max_search_depth cuckoo_block_size identity_as_first_hash : CuckooField
  use_module_hash : CuckooField

pub CuckooField-discrete : Discrete CuckooField
CuckooField-discrete = hlevel

pub data UniversalField : Type 0 where
  size_ratio min_merge_width max_merge_width max_size_amplification_percent : UniversalField
  compression_size_percent stop_style allow_trivial_move : UniversalField

pub UniversalField-discrete : Discrete UniversalField
UniversalField-discrete = hlevel

pub data FifoField : Type 0 where
  max_table_files_size ttl allow_compaction : FifoField

pub FifoField-discrete : Discrete FifoField
FifoField-discrete = hlevel
