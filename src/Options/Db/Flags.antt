-- ===== src/Options/Db/Flags.antt =====
-- src/options.rs: the setters of `DBOptions` that take flags.
use rust_rocks.Common.{Bool, to_u8}
use rust_rocks.Ffi.{M, pure, ◌>>◌}
use rust_rocks.Options.Objects.{OptionsWorld}
use rust_rocks.Options.Db.Object.{DbOptions}
use rust_rocks.Options.Db.FlagGlue

unfoldable pub create_if_missing : DbOptions → Bool → M OptionsWorld DbOptions
unfolding FlagGlue.rocks_dboptions_set_create_if_missing
create_if_missing self val = do
  FlagGlue.rocks_dboptions_set_create_if_missing self.raw (to_u8 val)
  pure self

unfoldable pub create_missing_column_families : DbOptions → Bool → M OptionsWorld DbOptions
unfolding FlagGlue.rocks_dboptions_set_create_if_missing
create_missing_column_families self val = do
  FlagGlue.rocks_dboptions_set_create_if_missing self.raw (to_u8 val)
  pure self

unfoldable pub error_if_exists : DbOptions → Bool → M OptionsWorld DbOptions
unfolding FlagGlue.rocks_dboptions_set_error_if_exists
error_if_exists self val = do
  FlagGlue.rocks_dboptions_set_error_if_exists self.raw (to_u8 val)
  pure self

unfoldable pub paranoid_checks : DbOptions → Bool → M OptionsWorld DbOptions
unfolding FlagGlue.rocks_dboptions_set_paranoid_checks
paranoid_checks self val = do
  FlagGlue.rocks_dboptions_set_paranoid_checks self.raw (to_u8 val)
  pure self

unfoldable pub use_fsync : DbOptions → Bool → M OptionsWorld DbOptions
unfolding FlagGlue.rocks_dboptions_set_use_fsync
use_fsync self val = do FlagGlue.rocks_dboptions_set_use_fsync self.raw (to_u8 val); pure self

unfoldable pub allow_mmap_reads : DbOptions → Bool → M OptionsWorld DbOptions
unfolding FlagGlue.rocks_dboptions_set_allow_mmap_reads
allow_mmap_reads self val = do
  FlagGlue.rocks_dboptions_set_allow_mmap_reads self.raw (to_u8 val)
  pure self

unfoldable pub allow_mmap_writes : DbOptions → Bool → M OptionsWorld DbOptions
unfolding FlagGlue.rocks_dboptions_set_allow_mmap_writes
allow_mmap_writes self val = do
  FlagGlue.rocks_dboptions_set_allow_mmap_writes self.raw (to_u8 val)
  pure self

unfoldable pub use_direct_reads : DbOptions → Bool → M OptionsWorld DbOptions
unfolding FlagGlue.rocks_dboptions_set_use_direct_reads
use_direct_reads self val = do
  FlagGlue.rocks_dboptions_set_use_direct_reads self.raw (to_u8 val)
  pure self

unfoldable pub use_direct_io_for_flush_and_compaction : DbOptions → Bool → M OptionsWorld DbOptions
unfolding FlagGlue.rocks_dboptions_set_use_direct_io_for_flush_and_compaction
use_direct_io_for_flush_and_compaction self val = do
  FlagGlue.rocks_dboptions_set_use_direct_io_for_flush_and_compaction self.raw (to_u8 val)
  pure self

unfoldable pub allow_fallocate : DbOptions → Bool → M OptionsWorld DbOptions
unfolding FlagGlue.rocks_dboptions_set_allow_fallocate
allow_fallocate self val = do
  FlagGlue.rocks_dboptions_set_allow_fallocate self.raw (to_u8 val)
  pure self

unfoldable pub is_fd_close_on_exec : DbOptions → Bool → M OptionsWorld DbOptions
unfolding FlagGlue.rocks_dboptions_set_is_fd_close_on_exec
is_fd_close_on_exec self val = do
  FlagGlue.rocks_dboptions_set_is_fd_close_on_exec self.raw (to_u8 val)
  pure self

unfoldable pub advise_random_on_open : DbOptions → Bool → M OptionsWorld DbOptions
unfolding FlagGlue.rocks_dboptions_set_advise_random_on_open
advise_random_on_open self val = do
  FlagGlue.rocks_dboptions_set_advise_random_on_open self.raw (to_u8 val)
  pure self

unfoldable pub new_table_reader_for_compaction_inputs : DbOptions → Bool → M OptionsWorld DbOptions
unfolding FlagGlue.rocks_dboptions_set_new_table_reader_for_compaction_inputs
new_table_reader_for_compaction_inputs self val = do
  FlagGlue.rocks_dboptions_set_new_table_reader_for_compaction_inputs self.raw (to_u8 val)
  pure self

unfoldable pub use_adaptive_mutex : DbOptions → Bool → M OptionsWorld DbOptions
unfolding FlagGlue.rocks_dboptions_set_use_adaptive_mutex
use_adaptive_mutex self val = do
  FlagGlue.rocks_dboptions_set_use_adaptive_mutex self.raw (to_u8 val)
  pure self

unfoldable pub enable_thread_tracking : DbOptions → Bool → M OptionsWorld DbOptions
unfolding FlagGlue.rocks_dboptions_set_enable_thread_tracking
enable_thread_tracking self val = do
  FlagGlue.rocks_dboptions_set_enable_thread_tracking self.raw (to_u8 val)
  pure self

unfoldable pub allow_concurrent_memtable_write : DbOptions → Bool → M OptionsWorld DbOptions
unfolding FlagGlue.rocks_dboptions_set_allow_concurrent_memtable_write
allow_concurrent_memtable_write self val = do
  FlagGlue.rocks_dboptions_set_allow_concurrent_memtable_write self.raw (to_u8 val)
  pure self

unfoldable pub enable_write_thread_adaptive_yield : DbOptions → Bool → M OptionsWorld DbOptions
unfolding FlagGlue.rocks_dboptions_set_enable_write_thread_adaptive_yield
enable_write_thread_adaptive_yield self val = do
  FlagGlue.rocks_dboptions_set_enable_write_thread_adaptive_yield self.raw (to_u8 val)
  pure self

unfoldable pub skip_stats_update_on_db_open : DbOptions → Bool → M OptionsWorld DbOptions
unfolding FlagGlue.rocks_dboptions_set_skip_stats_update_on_db_open
skip_stats_update_on_db_open self val = do
  FlagGlue.rocks_dboptions_set_skip_stats_update_on_db_open self.raw (to_u8 val)
  pure self

unfoldable pub allow_2pc : DbOptions → Bool → M OptionsWorld DbOptions
unfolding FlagGlue.rocks_dboptions_set_allow_2pc
allow_2pc self val = do FlagGlue.rocks_dboptions_set_allow_2pc self.raw (to_u8 val); pure self

unfoldable pub fail_if_options_file_error : DbOptions → Bool → M OptionsWorld DbOptions
unfolding FlagGlue.rocks_dboptions_set_fail_if_options_file_error
fail_if_options_file_error self val = do
  FlagGlue.rocks_dboptions_set_fail_if_options_file_error self.raw (to_u8 val)
  pure self

unfoldable pub dump_malloc_stats : DbOptions → Bool → M OptionsWorld DbOptions
unfolding FlagGlue.rocks_dboptions_set_dump_malloc_stats
dump_malloc_stats self val = do
  FlagGlue.rocks_dboptions_set_dump_malloc_stats self.raw (to_u8 val)
  pure self

unfoldable pub avoid_flush_during_recovery : DbOptions → Bool → M OptionsWorld DbOptions
unfolding FlagGlue.rocks_dboptions_set_avoid_flush_during_recovery
avoid_flush_during_recovery self val = do
  FlagGlue.rocks_dboptions_set_avoid_flush_during_recovery self.raw (to_u8 val)
  pure self

unfoldable pub avoid_flush_during_shutdown : DbOptions → Bool → M OptionsWorld DbOptions
unfolding FlagGlue.rocks_dboptions_set_avoid_flush_during_shutdown
avoid_flush_during_shutdown self val = do
  FlagGlue.rocks_dboptions_set_avoid_flush_during_shutdown self.raw (to_u8 val)
  pure self

unfoldable pub allow_ingest_behind : DbOptions → Bool → M OptionsWorld DbOptions
unfolding FlagGlue.rocks_dboptions_set_allow_ingest_behind
allow_ingest_behind self val = do
  FlagGlue.rocks_dboptions_set_allow_ingest_behind self.raw (to_u8 val)
  pure self

unfoldable pub concurrent_prepare : DbOptions → Bool → M OptionsWorld DbOptions
unfolding FlagGlue.rocks_dboptions_set_concurrent_prepare
concurrent_prepare self val = do
  FlagGlue.rocks_dboptions_set_concurrent_prepare self.raw (to_u8 val)
  pure self

unfoldable pub manual_wal_flush : DbOptions → Bool → M OptionsWorld DbOptions
unfolding FlagGlue.rocks_dboptions_set_manual_wal_flush
manual_wal_flush self val = do
  FlagGlue.rocks_dboptions_set_manual_wal_flush self.raw (to_u8 val)
  pure self
