-- ===== src/Options/Db/NumberGlue.antt =====
-- rocks-sys/rocks/options.cc: the functions that assign numbers and enums to members of `DBOptions`.
use rust_rocks.Common.{ℕ}
use rust_rocks.Ffi.{Ptr, M}
use rust_rocks.Options.Struct.{number, set_member}
use rust_rocks.Options.Objects.{OptionsWorld, db_kind}
use rust_rocks.Options.Fields.{DbField}

unfoldable pub rocks_dboptions_set_info_log_level : Ptr → ℕ → M OptionsWorld (Unit {0})
rocks_dboptions_set_info_log_level opt v = set_member db_kind opt DbField.info_log_level (number v)

unfoldable pub rocks_dboptions_set_max_open_files : Ptr → ℕ → M OptionsWorld (Unit {0})
rocks_dboptions_set_max_open_files opt v = set_member db_kind opt DbField.max_open_files (number v)

unfoldable pub rocks_dboptions_set_max_file_opening_threads : Ptr → ℕ → M OptionsWorld (Unit {0})
rocks_dboptions_set_max_file_opening_threads opt v =
    set_member db_kind opt DbField.max_file_opening_threads (number v)

unfoldable pub rocks_dboptions_set_max_total_wal_size : Ptr → ℕ → M OptionsWorld (Unit {0})
rocks_dboptions_set_max_total_wal_size opt v =
    set_member db_kind opt DbField.max_total_wal_size (number v)

unfoldable pub rocks_dboptions_set_delete_obsolete_files_period_micros :
    Ptr → ℕ → M OptionsWorld (Unit {0})
rocks_dboptions_set_delete_obsolete_files_period_micros opt v =
    set_member db_kind opt DbField.delete_obsolete_files_period_micros (number v)

unfoldable pub rocks_dboptions_set_max_background_jobs : Ptr → ℕ → M OptionsWorld (Unit {0})
rocks_dboptions_set_max_background_jobs opt v =
    set_member db_kind opt DbField.max_background_jobs (number v)

unfoldable pub rocks_dboptions_set_max_subcompactions : Ptr → ℕ → M OptionsWorld (Unit {0})
rocks_dboptions_set_max_subcompactions opt v =
    set_member db_kind opt DbField.max_subcompactions (number v)

unfoldable pub rocks_dboptions_set_max_log_file_size : Ptr → ℕ → M OptionsWorld (Unit {0})
rocks_dboptions_set_max_log_file_size opt v =
    set_member db_kind opt DbField.max_log_file_size (number v)

unfoldable pub rocks_dboptions_set_log_file_time_to_roll : Ptr → ℕ → M OptionsWorld (Unit {0})
rocks_dboptions_set_log_file_time_to_roll opt v =
    set_member db_kind opt DbField.log_file_time_to_roll (number v)

unfoldable pub rocks_dboptions_set_keep_log_file_num : Ptr → ℕ → M OptionsWorld (Unit {0})
rocks_dboptions_set_keep_log_file_num opt v =
    set_member db_kind opt DbField.keep_log_file_num (number v)

unfoldable pub rocks_dboptions_set_recycle_log_file_num : Ptr → ℕ → M OptionsWorld (Unit {0})
rocks_dboptions_set_recycle_log_file_num opt v =
    set_member db_kind opt DbField.recycle_log_file_num (number v)

unfoldable pub rocks_dboptions_set_max_manifest_file_size : Ptr → ℕ → M OptionsWorld (Unit {0})
rocks_dboptions_set_max_manifest_file_size opt v =
    set_member db_kind opt DbField.max_manifest_file_size (number v)

unfoldable pub rocks_dboptions_set_table_cache_numshardbits : Ptr → ℕ → M OptionsWorld (Unit {0})
rocks_dboptions_set_table_cache_numshardbits opt v =
    set_member db_kind opt DbField.table_cache_numshardbits (number v)

unfoldable pub rocks_dboptions_set_wal_ttl_seconds : Ptr → ℕ → M OptionsWorld (Unit {0})
rocks_dboptions_set_wal_ttl_seconds opt v =
    set_member db_kind opt DbField.wal_ttl_seconds (number v)

unfoldable pub rocks_dboptions_set_wal_size_limit_mb : Ptr → ℕ → M OptionsWorld (Unit {0})
rocks_dboptions_set_wal_size_limit_mb opt v =
    set_member db_kind opt DbField.wal_size_limit_mb (number v)

unfoldable pub rocks_dboptions_set_manifest_preallocation_size : Ptr → ℕ → M OptionsWorld (Unit {0})
rocks_dboptions_set_manifest_preallocation_size opt v =
    set_member db_kind opt DbField.manifest_preallocation_size (number v)

unfoldable pub rocks_dboptions_set_stats_dump_period_sec : Ptr → ℕ → M OptionsWorld (Unit {0})
rocks_dboptions_set_stats_dump_period_sec opt v =
    set_member db_kind opt DbField.stats_dump_period_sec (number v)

unfoldable pub rocks_dboptions_set_db_write_buffer_size : Ptr → ℕ → M OptionsWorld (Unit {0})
rocks_dboptions_set_db_write_buffer_size opt v =
    set_member db_kind opt DbField.db_write_buffer_size (number v)

unfoldable pub rocks_dboptions_set_compaction_readahead_size : Ptr → ℕ → M OptionsWorld (Unit {0})
rocks_dboptions_set_compaction_readahead_size opt v =
    set_member db_kind opt DbField.compaction_readahead_size (number v)

unfoldable pub rocks_dboptions_set_random_access_max_buffer_size :
    Ptr → ℕ → M OptionsWorld (Unit {0})
rocks_dboptions_set_random_access_max_buffer_size opt v =
    set_member db_kind opt DbField.random_access_max_buffer_size (number v)

unfoldable pub rocks_dboptions_set_writable_file_max_buffer_size :
    Ptr → ℕ → M OptionsWorld (Unit {0})
rocks_dboptions_set_writable_file_max_buffer_size opt v =
    set_member db_kind opt DbField.writable_file_max_buffer_size (number v)

unfoldable pub rocks_dboptions_set_bytes_per_sync : Ptr → ℕ → M OptionsWorld (Unit {0})
rocks_dboptions_set_bytes_per_sync opt v = set_member db_kind opt DbField.bytes_per_sync (number v)

unfoldable pub rocks_dboptions_set_wal_bytes_per_sync : Ptr → ℕ → M OptionsWorld (Unit {0})
rocks_dboptions_set_wal_bytes_per_sync opt v =
    set_member db_kind opt DbField.wal_bytes_per_sync (number v)

unfoldable pub rocks_dboptions_set_delayed_write_rate : Ptr → ℕ → M OptionsWorld (Unit {0})
rocks_dboptions_set_delayed_write_rate opt v =
    set_member db_kind opt DbField.delayed_write_rate (number v)

unfoldable pub rocks_dboptions_set_write_thread_max_yield_usec : Ptr → ℕ → M OptionsWorld (Unit {0})
rocks_dboptions_set_write_thread_max_yield_usec opt v =
    set_member db_kind opt DbField.write_thread_max_yield_usec (number v)

unfoldable pub rocks_dboptions_set_write_thread_slow_yield_usec :
    Ptr → ℕ → M OptionsWorld (Unit {0})
rocks_dboptions_set_write_thread_slow_yield_usec opt v =
    set_member db_kind opt DbField.write_thread_slow_yield_usec (number v)

unfoldable pub rocks_dboptions_set_wal_recovery_mode : Ptr → ℕ → M OptionsWorld (Unit {0})
rocks_dboptions_set_wal_recovery_mode opt v =
    set_member db_kind opt DbField.wal_recovery_mode (number v)
