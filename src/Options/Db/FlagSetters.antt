-- ===== src/Options/Db/FlagSetters.antt =====
-- The setters of `DBOptions` that take flags, as a family: the member that each is to assign, by its
-- documentation. `create_missing_column_families`, which assigns another, is in Options/Db/Unset.
use rust_rocks.Common.{◌≡◌, refl, Bool, to_u8}
use rust_rocks.Ffi.{done, M, and_then}
use rust_rocks.Options.Struct.{set_member, flag_of}
use rust_rocks.Options.Objects.{OptionsWorld, db_kind}
use rust_rocks.Options.Fields.{DbField}
use rust_rocks.Options.Db.Object.{DbOptions}
use rust_rocks.Options.Db.Flags

pub data DbFlag : Type 0 where
  create_if_missing error_if_exists paranoid_checks : DbFlag
  use_fsync allow_mmap_reads allow_mmap_writes use_direct_reads : DbFlag
  use_direct_io_for_flush_and_compaction allow_fallocate is_fd_close_on_exec : DbFlag
  advise_random_on_open new_table_reader_for_compaction_inputs use_adaptive_mutex : DbFlag
  enable_thread_tracking allow_concurrent_memtable_write : DbFlag
  enable_write_thread_adaptive_yield skip_stats_update_on_db_open allow_2pc : DbFlag
  fail_if_options_file_error dump_malloc_stats avoid_flush_during_recovery : DbFlag
  avoid_flush_during_shutdown allow_ingest_behind concurrent_prepare manual_wal_flush : DbFlag

unfoldable pub flag_member : DbFlag → DbField
flag_member DbFlag.create_if_missing = DbField.create_if_missing
flag_member DbFlag.error_if_exists = DbField.error_if_exists
flag_member DbFlag.paranoid_checks = DbField.paranoid_checks
flag_member DbFlag.use_fsync = DbField.use_fsync
flag_member DbFlag.allow_mmap_reads = DbField.allow_mmap_reads
flag_member DbFlag.allow_mmap_writes = DbField.allow_mmap_writes
flag_member DbFlag.use_direct_reads = DbField.use_direct_reads
flag_member DbFlag.use_direct_io_for_flush_and_compaction =
    DbField.use_direct_io_for_flush_and_compaction
flag_member DbFlag.allow_fallocate = DbField.allow_fallocate
flag_member DbFlag.is_fd_close_on_exec = DbField.is_fd_close_on_exec
flag_member DbFlag.advise_random_on_open = DbField.advise_random_on_open
flag_member DbFlag.new_table_reader_for_compaction_inputs =
    DbField.new_table_reader_for_compaction_inputs
flag_member DbFlag.use_adaptive_mutex = DbField.use_adaptive_mutex
flag_member DbFlag.enable_thread_tracking = DbField.enable_thread_tracking
flag_member DbFlag.allow_concurrent_memtable_write = DbField.allow_concurrent_memtable_write
flag_member DbFlag.enable_write_thread_adaptive_yield = DbField.enable_write_thread_adaptive_yield
flag_member DbFlag.skip_stats_update_on_db_open = DbField.skip_stats_update_on_db_open
flag_member DbFlag.allow_2pc = DbField.allow_2pc
flag_member DbFlag.fail_if_options_file_error = DbField.fail_if_options_file_error
flag_member DbFlag.dump_malloc_stats = DbField.dump_malloc_stats
flag_member DbFlag.avoid_flush_during_recovery = DbField.avoid_flush_during_recovery
flag_member DbFlag.avoid_flush_during_shutdown = DbField.avoid_flush_during_shutdown
flag_member DbFlag.allow_ingest_behind = DbField.allow_ingest_behind
flag_member DbFlag.concurrent_prepare = DbField.concurrent_prepare
flag_member DbFlag.manual_wal_flush = DbField.manual_wal_flush

unfoldable pub apply_flag : DbFlag → DbOptions → Bool → M OptionsWorld DbOptions
unfolding Flags.create_if_missing Flags.error_if_exists Flags.paranoid_checks Flags.use_fsync
    Flags.allow_mmap_reads Flags.allow_mmap_writes Flags.use_direct_reads
    Flags.use_direct_io_for_flush_and_compaction Flags.allow_fallocate Flags.is_fd_close_on_exec
    Flags.advise_random_on_open Flags.new_table_reader_for_compaction_inputs
    Flags.use_adaptive_mutex Flags.enable_thread_tracking Flags.allow_concurrent_memtable_write
    Flags.enable_write_thread_adaptive_yield Flags.skip_stats_update_on_db_open Flags.allow_2pc
    Flags.fail_if_options_file_error Flags.dump_malloc_stats Flags.avoid_flush_during_recovery
    Flags.avoid_flush_during_shutdown Flags.allow_ingest_behind Flags.concurrent_prepare
    Flags.manual_wal_flush
apply_flag DbFlag.create_if_missing o v = Flags.create_if_missing o v
apply_flag DbFlag.error_if_exists o v = Flags.error_if_exists o v
apply_flag DbFlag.paranoid_checks o v = Flags.paranoid_checks o v
apply_flag DbFlag.use_fsync o v = Flags.use_fsync o v
apply_flag DbFlag.allow_mmap_reads o v = Flags.allow_mmap_reads o v
apply_flag DbFlag.allow_mmap_writes o v = Flags.allow_mmap_writes o v
apply_flag DbFlag.use_direct_reads o v = Flags.use_direct_reads o v
apply_flag DbFlag.use_direct_io_for_flush_and_compaction o v =
    Flags.use_direct_io_for_flush_and_compaction o v
apply_flag DbFlag.allow_fallocate o v = Flags.allow_fallocate o v
apply_flag DbFlag.is_fd_close_on_exec o v = Flags.is_fd_close_on_exec o v
apply_flag DbFlag.advise_random_on_open o v = Flags.advise_random_on_open o v
apply_flag DbFlag.new_table_reader_for_compaction_inputs o v =
    Flags.new_table_reader_for_compaction_inputs o v
apply_flag DbFlag.use_adaptive_mutex o v = Flags.use_adaptive_mutex o v
apply_flag DbFlag.enable_thread_tracking o v = Flags.enable_thread_tracking o v
apply_flag DbFlag.allow_concurrent_memtable_write o v = Flags.allow_concurrent_memtable_write o v
apply_flag DbFlag.enable_write_thread_adaptive_yield o v =
    Flags.enable_write_thread_adaptive_yield o v
apply_flag DbFlag.skip_stats_update_on_db_open o v = Flags.skip_stats_update_on_db_open o v
apply_flag DbFlag.allow_2pc o v = Flags.allow_2pc o v
apply_flag DbFlag.fail_if_options_file_error o v = Flags.fail_if_options_file_error o v
apply_flag DbFlag.dump_malloc_stats o v = Flags.dump_malloc_stats o v
apply_flag DbFlag.avoid_flush_during_recovery o v = Flags.avoid_flush_during_recovery o v
apply_flag DbFlag.avoid_flush_during_shutdown o v = Flags.avoid_flush_during_shutdown o v
apply_flag DbFlag.allow_ingest_behind o v = Flags.allow_ingest_behind o v
apply_flag DbFlag.concurrent_prepare o v = Flags.concurrent_prepare o v
apply_flag DbFlag.manual_wal_flush o v = Flags.manual_wal_flush o v

pub apply_flag-member :
    (m : DbFlag) (o : DbOptions) (v : Bool) (w : OptionsWorld)
    → apply_flag m o v w
      ≡ and_then
          (set_member db_kind o.raw (flag_member m) (flag_of (to_u8 v)) w)
          (λ _ w'. done o w')
unfolding apply_flag flag_member
apply_flag-member DbFlag.create_if_missing o v w = refl
apply_flag-member _ o v w = refl
