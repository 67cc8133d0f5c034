-- ===== src/Options/Db/NumberSetters.antt =====
-- The setters of `DBOptions` that take numbers, as a family: the member that each assigns.
use rust_rocks.Common.{ℕ, ◌≡◌, refl}
use rust_rocks.Ffi.{done, M, and_then}
use rust_rocks.Options.Struct.{Value, set_member}
use rust_rocks.Options.Objects.{OptionsWorld, db_kind}
use rust_rocks.Options.Fields.{DbField}
use rust_rocks.Options.Db.Object.{DbOptions}
use rust_rocks.Options.Db.Numbers

pub data DbNumber : Type 0 where
  max_open_files max_file_opening_threads max_total_wal_size : DbNumber
  delete_obsolete_files_period_micros max_background_jobs max_subcompactions : DbNumber
  max_log_file_size log_file_time_to_roll keep_log_file_num recycle_log_file_num : DbNumber
  max_manifest_file_size table_cache_numshardbits wal_ttl_seconds wal_size_limit_mb : DbNumber
  manifest_preallocation_size stats_dump_period_sec db_write_buffer_size : DbNumber
  compaction_readahead_size random_access_max_buffer_size writable_file_max_buffer_size : DbNumber
  bytes_per_sync wal_bytes_per_sync delayed_write_rate write_thread_max_yield_usec : DbNumber
  write_thread_slow_yield_usec : DbNumber

unfoldable pub number_member : DbNumber → DbField
number_member DbNumber.max_open_files = DbField.max_open_files
number_member DbNumber.max_file_opening_threads = DbField.max_file_opening_threads
number_member DbNumber.max_total_wal_size = DbField.max_total_wal_size
number_member DbNumber.delete_obsolete_files_period_micros =
    DbField.delete_obsolete_files_period_micros
number_member DbNumber.max_background_jobs = DbField.max_background_jobs
number_member DbNumber.max_subcompactions = DbField.max_subcompactions
number_member DbNumber.max_log_file_size = DbField.max_log_file_size
number_member DbNumber.log_file_time_to_roll = DbField.log_file_time_to_roll
number_member DbNumber.keep_log_file_num = DbField.keep_log_file_num
number_member DbNumber.recycle_log_file_num = DbField.recycle_log_file_num
number_member DbNumber.max_manifest_file_size = DbField.max_manifest_file_size
number_member DbNumber.table_cache_numshardbits = DbField.table_cache_numshardbits
number_member DbNumber.wal_ttl_seconds = DbField.wal_ttl_seconds
number_member DbNumber.wal_size_limit_mb = DbField.wal_size_limit_mb
number_member DbNumber.manifest_preallocation_size = DbField.manifest_preallocation_size
number_member DbNumber.stats_dump_period_sec = DbField.stats_dump_period_sec
number_member DbNumber.db_write_buffer_size = DbField.db_write_buffer_size
number_member DbNumber.compaction_readahead_size = DbField.compaction_readahead_size
number_member DbNumber.random_access_max_buffer_size = DbField.random_access_max_buffer_size
number_member DbNumber.writable_file_max_buffer_size = DbField.writable_file_max_buffer_size
number_member DbNumber.bytes_per_sync = DbField.bytes_per_sync
number_member DbNumber.wal_bytes_per_sync = DbField.wal_bytes_per_sync
number_member DbNumber.delayed_write_rate = DbField.delayed_write_rate
number_member DbNumber.write_thread_max_yield_usec = DbField.write_thread_max_yield_usec
number_member DbNumber.write_thread_slow_yield_usec = DbField.write_thread_slow_yield_usec

unfoldable pub apply_number : DbNumber → DbOptions → ℕ → M OptionsWorld DbOptions
unfolding Numbers.max_open_files Numbers.max_file_opening_threads Numbers.max_total_wal_size
    Numbers.delete_obsolete_files_period_micros Numbers.max_background_jobs
    Numbers.max_subcompactions Numbers.max_log_file_size Numbers.log_file_time_to_roll
    Numbers.keep_log_file_num Numbers.recycle_log_file_num Numbers.max_manifest_file_size
    Numbers.table_cache_numshardbits Numbers.wal_ttl_seconds Numbers.wal_size_limit_mb
    Numbers.manifest_preallocation_size Numbers.stats_dump_period_sec Numbers.db_write_buffer_size
    Numbers.compaction_readahead_size Numbers.random_access_max_buffer_size
    Numbers.writable_file_max_buffer_size Numbers.bytes_per_sync Numbers.wal_bytes_per_sync
    Numbers.delayed_write_rate Numbers.write_thread_max_yield_usec
    Numbers.write_thread_slow_yield_usec
apply_number DbNumber.max_open_files o v = Numbers.max_open_files o v
apply_number DbNumber.max_file_opening_threads o v = Numbers.max_file_opening_threads o v
apply_number DbNumber.max_total_wal_size o v = Numbers.max_total_wal_size o v
apply_number DbNumber.delete_obsolete_files_period_micros o v =
    Numbers.delete_obsolete_files_period_micros o v
apply_number DbNumber.max_background_jobs o v = Numbers.max_background_jobs o v
apply_number DbNumber.max_subcompactions o v = Numbers.max_subcompactions o v
apply_number DbNumber.max_log_file_size o v = Numbers.max_log_file_size o v
apply_number DbNumber.log_file_time_to_roll o v = Numbers.log_file_time_to_roll o v
apply_number DbNumber.keep_log_file_num o v = Numbers.keep_log_file_num o v
apply_number DbNumber.recycle_log_file_num o v = Numbers.recycle_log_file_num o v
apply_number DbNumber.max_manifest_file_size o v = Numbers.max_manifest_file_size o v
apply_number DbNumber.table_cache_numshardbits o v = Numbers.table_cache_numshardbits o v
apply_number DbNumber.wal_ttl_seconds o v = Numbers.wal_ttl_seconds o v
apply_number DbNumber.wal_size_limit_mb o v = Numbers.wal_size_limit_mb o v
apply_number DbNumber.manifest_preallocation_size o v = Numbers.manifest_preallocation_size o v
apply_number DbNumber.stats_dump_period_sec o v = Numbers.stats_dump_period_sec o v
apply_number DbNumber.db_write_buffer_size o v = Numbers.db_write_buffer_size o v
apply_number DbNumber.compaction_readahead_size o v = Numbers.compaction_readahead_size o v
apply_number DbNumber.random_access_max_buffer_size o v = Numbers.random_access_max_buffer_size o v
apply_number DbNumber.writable_file_max_buffer_size o v = Numbers.writable_file_max_buffer_size o v
apply_number DbNumber.bytes_per_sync o v = Numbers.bytes_per_sync o v
apply_number DbNumber.wal_bytes_per_sync o v = Numbers.wal_bytes_per_sync o v
apply_number DbNumber.delayed_write_rate o v = Numbers.delayed_write_rate o v
apply_number DbNumber.write_thread_max_yield_usec o v = Numbers.write_thread_max_yield_usec o v
apply_number DbNumber.write_thread_slow_yield_usec o v = Numbers.write_thread_slow_yield_usec o v

pub apply_number-member :
    (m : DbNumber) (o : DbOptions) (v : ℕ) (w : OptionsWorld)
    → apply_number m o v w
      ≡ and_then (set_member db_kind o.raw (number_member m) (Value.number v) w) (λ _ w'. done o w')
unfolding apply_number number_member
apply_number-member DbNumber.max_open_files o v w = refl
apply_number-member _ o v w = refl
