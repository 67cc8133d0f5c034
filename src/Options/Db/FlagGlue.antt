-- ===== src/Options/Db/FlagGlue.antt =====
-- rocks-sys/rocks/options.cc: the functions that assign flags to members of `DBOptions`.
use rust_rocks.Common.{ℕ}
use rust_rocks.Ffi.{Ptr, M}
use rust_rocks.Options.Struct.{set_member, flag_of}
use rust_rocks.Options.Objects.{OptionsWorld, db_kind}
use rust_rocks.Options.Fields.{DbField}

unfoldable pub rocks_dboptions_set_create_if_missing : Ptr → ℕ → M OptionsWorld (Unit {0})
rocks_dboptions_set_create_if_missing opt v =
    set_member db_kind opt DbField.create_if_missing (flag_of v)

unfoldable pub rocks_dboptions_set_error_if_exists : Ptr → ℕ → M OptionsWorld (Unit {0})
rocks_dboptions_set_error_if_exists opt v =
    set_member db_kind opt DbField.error_if_exists (flag_of v)

unfoldable pub rocks_dboptions_set_paranoid_checks : Ptr → ℕ → M OptionsWorld (Unit {0})
rocks_dboptions_set_paranoid_checks opt v =
    set_member db_kind opt DbField.paranoid_checks (flag_of v)

unfoldable pub rocks_dboptions_set_use_fsync : Ptr → ℕ → M OptionsWorld (Unit {0})
rocks_dboptions_set_use_fsync opt v = set_member db_kind opt DbField.use_fsync (flag_of v)

unfoldable pub rocks_dboptions_set_allow_mmap_reads : Ptr → ℕ → M OptionsWorld (Unit {0})
rocks_dboptions_set_allow_mmap_reads opt v =
    set_member db_kind opt DbField.allow_mmap_reads (flag_of v)

unfoldable pub rocks_dboptions_set_allow_mmap_writes : Ptr → ℕ → M OptionsWorld (Unit {0})
rocks_dboptions_set_allow_mmap_writes opt v =
    set_member db_kind opt DbField.allow_mmap_writes (flag_of v)

unfoldable pub rocks_dboptions_set_use_direct_reads : Ptr → ℕ → M OptionsWorld (Unit {0})
rocks_dboptions_set_use_direct_reads opt v =
    set_member db_kind opt DbField.use_direct_reads (flag_of v)

unfoldable pub rocks_dboptions_set_use_direct_io_for_flush_and_compaction :
    Ptr → ℕ → M OptionsWorld (Unit {0})
rocks_dboptions_set_use_direct_io_for_flush_and_compaction opt v =
    set_member db_kind opt DbField.use_direct_io_for_flush_and_compaction (flag_of v)

unfoldable pub rocks_dboptions_set_allow_fallocate : Ptr → ℕ → M OptionsWorld (Unit {0})
rocks_dboptions_set_allow_fallocate opt v =
    set_member db_kind opt DbField.allow_fallocate (flag_of v)

unfoldable pub rocks_dboptions_set_is_fd_close_on_exec : Ptr → ℕ → M OptionsWorld (Unit {0})
rocks_dboptions_set_is_fd_close_on_exec opt v =
    set_member db_kind opt DbField.is_fd_close_on_exec (flag_of v)

unfoldable pub rocks_dboptions_set_advise_random_on_open : Ptr → ℕ → M OptionsWorld (Unit {0})
rocks_dboptions_set_advise_random_on_open opt v =
    set_member db_kind opt DbField.advise_random_on_open (flag_of v)

unfoldable pub rocks_dboptions_set_new_table_reader_for_compaction_inputs :
    Ptr → ℕ → M OptionsWorld (Unit {0})
rocks_dboptions_set_new_table_reader_for_compaction_inputs opt v =
    set_member db_kind opt DbField.new_table_reader_for_compaction_inputs (flag_of v)

unfoldable pub rocks_dboptions_set_use_adaptive_mutex : Ptr → ℕ → M OptionsWorld (Unit {0})
rocks_dboptions_set_use_adaptive_mutex opt v =
    set_member db_kind opt DbField.use_adaptive_mutex (flag_of v)

unfoldable pub rocks_dboptions_set_enable_thread_tracking : Ptr → ℕ → M OptionsWorld (Unit {0})
rocks_dboptions_set_enable_thread_tracking opt v =
    set_member db_kind opt DbField.enable_thread_tracking (flag_of v)

unfoldable pub rocks_dboptions_set_allow_concurrent_memtable_write :
    Ptr → ℕ → M OptionsWorld (Unit {0})
rocks_dboptions_set_allow_concurrent_memtable_write opt v =
    set_member db_kind opt DbField.allow_concurrent_memtable_write (flag_of v)

unfoldable pub rocks_dboptions_set_enable_write_thread_adaptive_yield :
    Ptr → ℕ → M OptionsWorld (Unit {0})
rocks_dboptions_set_enable_write_thread_adaptive_yield opt v =
    set_member db_kind opt DbField.enable_write_thread_adaptive_yield (flag_of v)

unfoldable pub rocks_dboptions_set_skip_stats_update_on_db_open :
    Ptr → ℕ → M OptionsWorld (Unit {0})
rocks_dboptions_set_skip_stats_update_on_db_open opt v =
    set_member db_kind opt DbField.skip_stats_update_on_db_open (flag_of v)

unfoldable pub rocks_dboptions_set_allow_2pc : Ptr → ℕ → M OptionsWorld (Unit {0})
rocks_dboptions_set_allow_2pc opt v = set_member db_kind opt DbField.allow_2pc (flag_of v)

unfoldable pub rocks_dboptions_set_fail_if_options_file_error : Ptr → ℕ → M OptionsWorld (Unit {0})
rocks_dboptions_set_fail_if_options_file_error opt v =
    set_member db_kind opt DbField.fail_if_options_file_error (flag_of v)

unfoldable pub rocks_dboptions_set_dump_malloc_stats : Ptr → ℕ → M OptionsWorld (Unit {0})
rocks_dboptions_set_dump_malloc_stats opt v =
    set_member db_kind opt DbField.dump_malloc_stats (flag_of v)

unfoldable pub rocks_dboptions_set_avoid_flush_during_recovery : Ptr → ℕ → M OptionsWorld (Unit {0})
rocks_dboptions_set_avoid_flush_during_recovery opt v =
    set_member db_kind opt DbField.avoid_flush_during_recovery (flag_of v)

unfoldable pub rocks_dboptions_set_avoid_flush_during_shutdown : Ptr → ℕ → M OptionsWorld (Unit {0})
rocks_dboptions_set_avoid_flush_during_shutdown opt v =
    set_member db_kind opt DbField.avoid_flush_during_shutdown (flag_of v)

unfoldable pub rocks_dboptions_set_allow_ingest_behind : Ptr → ℕ → M OptionsWorld (Unit {0})
rocks_dboptions_set_allow_ingest_behind opt v =
    set_member db_kind opt DbField.allow_ingest_behind (flag_of v)

unfoldable pub rocks_dboptions_set_concurrent_prepare : Ptr → ℕ → M OptionsWorld (Unit {0})
rocks_dboptions_set_concurrent_prepare opt v =
    set_member db_kind opt DbField.concurrent_prepare (flag_of v)

unfoldable pub rocks_dboptions_set_manual_wal_flush : Ptr → ℕ → M OptionsWorld (Unit {0})
rocks_dboptions_set_manual_wal_flush opt v =
    set_member db_kind opt DbField.manual_wal_flush (flag_of v)
