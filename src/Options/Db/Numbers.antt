-- ===== src/Options/Db/Numbers.antt =====
-- src/options.rs: the setters of `DBOptions` that take numbers and enums.
use rust_rocks.Common.{ℕ}
use rust_rocks.Ffi.{M, pure, ◌>>◌}
use rust_rocks.Options.Objects.{OptionsWorld}
use rust_rocks.Options.Enums.{
  WalRecoveryMode, wal_recovery_mode_to_int, InfoLogLevel, info_log_level_to_int,
}
use rust_rocks.Options.Db.Object.{DbOptions}
use rust_rocks.Options.Db.NumberGlue

unfoldable pub info_log_level : DbOptions → InfoLogLevel → M OptionsWorld DbOptions
unfolding NumberGlue.rocks_dboptions_set_info_log_level info_log_level_to_int
info_log_level self val = do
  NumberGlue.rocks_dboptions_set_info_log_level self.raw (info_log_level_to_int val)
  pure self

unfoldable pub max_open_files : DbOptions → ℕ → M OptionsWorld DbOptions
unfolding NumberGlue.rocks_dboptions_set_max_open_files
max_open_files self val = do NumberGlue.rocks_dboptions_set_max_open_files self.raw val; pure self

unfoldable pub max_file_opening_threads : DbOptions → ℕ → M OptionsWorld DbOptions
unfolding NumberGlue.rocks_dboptions_set_max_file_opening_threads
max_file_opening_threads self val = do
  NumberGlue.rocks_dboptions_set_max_file_opening_threads self.raw val
  pure self

unfoldable pub max_total_wal_size : DbOptions → ℕ → M OptionsWorld DbOptions
unfolding NumberGlue.rocks_dboptions_set_max_total_wal_size
max_total_wal_size self val = do
  NumberGlue.rocks_dboptions_set_max_total_wal_size self.raw val
  pure self

unfoldable pub delete_obsolete_files_period_micros : DbOptions → ℕ → M OptionsWorld DbOptions
unfolding NumberGlue.rocks_dboptions_set_delete_obsolete_files_period_micros
delete_obsolete_files_period_micros self val = do
  NumberGlue.rocks_dboptions_set_delete_obsolete_files_period_micros self.raw val
  pure self

unfoldable pub max_background_jobs : DbOptions → ℕ → M OptionsWorld DbOptions
unfolding NumberGlue.rocks_dboptions_set_max_background_jobs
max_background_jobs self val = do
  NumberGlue.rocks_dboptions_set_max_background_jobs self.raw val
  pure self

unfoldable pub max_subcompactions : DbOptions → ℕ → M OptionsWorld DbOptions
unfolding NumberGlue.rocks_dboptions_set_max_subcompactions
max_subcompactions self val = do
  NumberGlue.rocks_dboptions_set_max_subcompactions self.raw val
  pure self

unfoldable pub max_log_file_size : DbOptions → ℕ → M OptionsWorld DbOptions
unfolding NumberGlue.rocks_dboptions_set_max_log_file_size
max_log_file_size self val = do
  NumberGlue.rocks_dboptions_set_max_log_file_size self.raw val
  pure self

unfoldable pub log_file_time_to_roll : DbOptions → ℕ → M OptionsWorld DbOptions
unfolding NumberGlue.rocks_dboptions_set_log_file_time_to_roll
log_file_time_to_roll self val = do
  NumberGlue.rocks_dboptions_set_log_file_time_to_roll self.raw val
  pure self

unfoldable pub keep_log_file_num : DbOptions → ℕ → M OptionsWorld DbOptions
unfolding NumberGlue.rocks_dboptions_set_keep_log_file_num
keep_log_file_num self val = do
  NumberGlue.rocks_dboptions_set_keep_log_file_num self.raw val
  pure self

unfoldable pub recycle_log_file_num : DbOptions → ℕ → M OptionsWorld DbOptions
unfolding NumberGlue.rocks_dboptions_set_recycle_log_file_num
recycle_log_file_num self val = do
  NumberGlue.rocks_dboptions_set_recycle_log_file_num self.raw val
  pure self

unfoldable pub max_manifest_file_size : DbOptions → ℕ → M OptionsWorld DbOptions
unfolding NumberGlue.rocks_dboptions_set_max_manifest_file_size
max_manifest_file_size self val = do
  NumberGlue.rocks_dboptions_set_max_manifest_file_size self.raw val
  pure self

unfoldable pub table_cache_numshardbits : DbOptions → ℕ → M OptionsWorld DbOptions
unfolding NumberGlue.rocks_dboptions_set_table_cache_numshardbits
table_cache_numshardbits self val = do
  NumberGlue.rocks_dboptions_set_table_cache_numshardbits self.raw val
  pure self

unfoldable pub wal_ttl_seconds : DbOptions → ℕ → M OptionsWorld DbOptions
unfolding NumberGlue.rocks_dboptions_set_wal_ttl_seconds
wal_ttl_seconds self val = do NumberGlue.rocks_dboptions_set_wal_ttl_seconds self.raw val; pure self

unfoldable pub wal_size_limit_mb : DbOptions → ℕ → M OptionsWorld DbOptions
unfolding NumberGlue.rocks_dboptions_set_wal_size_limit_mb
wal_size_limit_mb self val = do
  NumberGlue.rocks_dboptions_set_wal_size_limit_mb self.raw val
  pure self

unfoldable pub manifest_preallocation_size : DbOptions → ℕ → M OptionsWorld DbOptions
unfolding NumberGlue.rocks_dboptions_set_manifest_preallocation_size
manifest_preallocation_size self val = do
  NumberGlue.rocks_dboptions_set_manifest_preallocation_size self.raw val
  pure self

unfoldable pub stats_dump_period_sec : DbOptions → ℕ → M OptionsWorld DbOptions
unfolding NumberGlue.rocks_dboptions_set_stats_dump_period_sec
stats_dump_period_sec self val = do
  NumberGlue.rocks_dboptions_set_stats_dump_period_sec self.raw val
  pure self

unfoldable pub db_write_buffer_size : DbOptions → ℕ → M OptionsWorld DbOptions
unfolding NumberGlue.rocks_dboptions_set_db_write_buffer_size
db_write_buffer_size self val = do
  NumberGlue.rocks_dboptions_set_db_write_buffer_size self.raw val
  pure self

unfoldable pub compaction_readahead_size : DbOptions → ℕ → M OptionsWorld DbOptions
unfolding NumberGlue.rocks_dboptions_set_compaction_readahead_size
compaction_readahead_size self val = do
  NumberGlue.rocks_dboptions_set_compaction_readahead_size self.raw val
  pure self

unfoldable pub random_access_max_buffer_size : DbOptions → ℕ → M OptionsWorld DbOptions
unfolding NumberGlue.rocks_dboptions_set_random_access_max_buffer_size
random_access_max_buffer_size self val = do
  NumberGlue.rocks_dboptions_set_random_access_max_buffer_size self.raw val
  pure self

unfoldable pub writable_file_max_buffer_size : DbOptions → ℕ → M OptionsWorld DbOptions
unfolding NumberGlue.rocks_dboptions_set_writable_file_max_buffer_size
writable_file_max_buffer_size self val = do
  NumberGlue.rocks_dboptions_set_writable_file_max_buffer_size self.raw val
  pure self

unfoldable pub bytes_per_sync : DbOptions → ℕ → M OptionsWorld DbOptions
unfolding NumberGlue.rocks_dboptions_set_bytes_per_sync
bytes_per_sync self val = do NumberGlue.rocks_dboptions_set_bytes_per_sync self.raw val; pure self

unfoldable pub wal_bytes_per_sync : DbOptions → ℕ → M OptionsWorld DbOptions
unfolding NumberGlue.rocks_dboptions_set_wal_bytes_per_sync
wal_bytes_per_sync self val = do
  NumberGlue.rocks_dboptions_set_wal_bytes_per_sync self.raw val
  pure self

unfoldable pub delayed_write_rate : DbOptions → ℕ → M OptionsWorld DbOptions
unfolding NumberGlue.rocks_dboptions_set_delayed_write_rate
delayed_write_rate self val = do
  NumberGlue.rocks_dboptions_set_delayed_write_rate self.raw val
  pure self

unfoldable pub write_thread_max_yield_usec : DbOptions → ℕ → M OptionsWorld DbOptions
unfolding NumberGlue.rocks_dboptions_set_write_thread_max_yield_usec
write_thread_max_yield_usec self val = do
  NumberGlue.rocks_dboptions_set_write_thread_max_yield_usec self.raw val
  pure self

unfoldable pub write_thread_slow_yield_usec : DbOptions → ℕ → M OptionsWorld DbOptions
unfolding NumberGlue.rocks_dboptions_set_write_thread_slow_yield_usec
write_thread_slow_yield_usec self val = do
  NumberGlue.rocks_dboptions_set_write_thread_slow_yield_usec self.raw val
  pure self

unfoldable pub wal_recovery_mode : DbOptions → WalRecoveryMode → M OptionsWorld DbOptions
unfolding NumberGlue.rocks_dboptions_set_wal_recovery_mode wal_recovery_mode_to_int
wal_recovery_mode self val = do
  NumberGlue.rocks_dboptions_set_wal_recovery_mode self.raw (wal_recovery_mode_to_int val)
  pure self
