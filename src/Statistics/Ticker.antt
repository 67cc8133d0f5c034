-- ===== src/Statistics/Ticker.antt =====
-- The enum `Tickers` of src/statistics.rs: its discriminants, and the names that `Display` writes.
use rust_rocks.Common.{ℕ}
use Prim.Native.String.{String}

pub data Tickers : Type 0 where
  block_cache_miss block_cache_hit block_cache_add block_cache_add_failures : Tickers
  block_cache_index_miss block_cache_index_hit block_cache_index_add : Tickers
  block_cache_index_bytes_insert block_cache_index_bytes_evict block_cache_filter_miss : Tickers
  block_cache_filter_hit block_cache_filter_add block_cache_filter_bytes_insert : Tickers
  block_cache_filter_bytes_evict block_cache_data_miss block_cache_data_hit : Tickers
  block_cache_data_add block_cache_data_bytes_insert block_cache_bytes_read : Tickers
  block_cache_bytes_write bloom_filter_useful persistent_cache_hit persistent_cache_miss : Tickers
  sim_block_cache_hit sim_block_cache_miss memtable_hit memtable_miss get_hit_l0 get_hit_l1 :
      Tickers
  get_hit_l2_and_up compaction_key_drop_newer_entry compaction_key_drop_obsolete : Tickers
  compaction_key_drop_range_del compaction_key_drop_user compaction_range_del_drop_obsolete :
      Tickers
  compaction_optimized_del_drop_obsolete number_keys_written number_keys_read : Tickers
  number_keys_updated bytes_written bytes_read number_db_seek number_db_next number_db_prev :
      Tickers
  number_db_seek_found number_db_next_found number_db_prev_found iter_bytes_read : Tickers
  no_file_closes no_file_opens no_file_errors stall_l0_slowdown_micros : Tickers
  stall_memtable_compaction_micros stall_l0_num_files_micros stall_micros : Tickers
  db_mutex_wait_micros rate_limit_delay_millis no_iterators number_multiget_calls : Tickers
  number_multiget_keys_read number_multiget_bytes_read number_filtered_deletes : Tickers
  number_merge_failures bloom_filter_prefix_checked bloom_filter_prefix_useful : Tickers
  number_of_reseeks_in_iteration get_updates_since_calls block_cache_compressed_miss : Tickers
  block_cache_compressed_hit block_cache_compressed_add block_cache_compressed_add_failures :
      Tickers
  wal_file_synced wal_file_bytes write_done_by_self write_done_by_other write_timedout : Tickers
  write_with_wal compact_read_bytes compact_write_bytes flush_write_bytes : Tickers
  number_direct_load_table_properties number_superversion_acquires : Tickers
  number_superversion_releases number_superversion_cleanups number_block_compressed : Tickers
  number_block_decompressed number_block_not_compressed merge_operation_total_time : Tickers
  filter_operation_total_time row_cache_hit row_cache_miss read_amp_estimate_useful_bytes : Tickers
  read_amp_total_read_bytes number_rate_limiter_drains : Tickers

unfoldable pub discriminant : Tickers → ℕ
discriminant Tickers.block_cache_miss = 0
discriminant Tickers.block_cache_hit = 1
discriminant Tickers.block_cache_add = 2
discriminant Tickers.block_cache_add_failures = 3
discriminant Tickers.block_cache_index_miss = 4
discriminant Tickers.block_cache_index_hit = 5
discriminant Tickers.block_cache_index_add = 6
discriminant Tickers.block_cache_index_bytes_insert = 7
discriminant Tickers.block_cache_index_bytes_evict = 8
discriminant Tickers.block_cache_filter_miss = 9
discriminant Tickers.block_cache_filter_hit = 10
discriminant Tickers.block_cache_filter_add = 11
discriminant Tickers.block_cache_filter_bytes_insert = 12
discriminant Tickers.block_cache_filter_bytes_evict = 13
discriminant Tickers.block_cache_data_miss = 14
discriminant Tickers.block_cache_data_hit = 15
discriminant Tickers.block_cache_data_add = 16
discriminant Tickers.block_cache_data_bytes_insert = 17
discriminant Tickers.block_cache_bytes_read = 18
discriminant Tickers.block_cache_bytes_write = 19
discriminant Tickers.bloom_filter_useful = 20
discriminant Tickers.persistent_cache_hit = 21
discriminant Tickers.persistent_cache_miss = 22
discriminant Tickers.sim_block_cache_hit = 23
discriminant Tickers.sim_block_cache_miss = 24
discriminant Tickers.memtable_hit = 25
discriminant Tickers.memtable_miss = 26
discriminant Tickers.get_hit_l0 = 27
discriminant Tickers.get_hit_l1 = 28
discriminant Tickers.get_hit_l2_and_up = 29
discriminant Tickers.compaction_key_drop_newer_entry = 30
discriminant Tickers.compaction_key_drop_obsolete = 31
discriminant Tickers.compaction_key_drop_range_del = 32
discriminant Tickers.compaction_key_drop_user = 33
discriminant Tickers.compaction_range_del_drop_obsolete = 34
discriminant Tickers.compaction_optimized_del_drop_obsolete = 35
discriminant Tickers.number_keys_written = 36
discriminant Tickers.number_keys_read = 37
discriminant Tickers.number_keys_updated = 38
discriminant Tickers.bytes_written = 39
discriminant Tickers.bytes_read = 40
discriminant Tickers.number_db_seek = 41
discriminant Tickers.number_db_next = 42
discriminant Tickers.number_db_prev = 43
discriminant Tickers.number_db_seek_found = 44
discriminant Tickers.number_db_next_found = 45
discriminant Tickers.number_db_prev_found = 46
discriminant Tickers.iter_bytes_read = 47
discriminant Tickers.no_file_closes = 48
discriminant Tickers.no_file_opens = 49
discriminant Tickers.no_file_errors = 50
discriminant Tickers.stall_l0_slowdown_micros = 51
discriminant Tickers.stall_memtable_compaction_micros = 52
discriminant Tickers.stall_l0_num_files_micros = 53
discriminant Tickers.stall_micros = 54
discriminant Tickers.db_mutex_wait_micros = 55
discriminant Tickers.rate_limit_delay_millis = 56
discriminant Tickers.no_iterators = 57
discriminant Tickers.number_multiget_calls = 58
discriminant Tickers.number_multiget_keys_read = 59
discriminant Tickers.number_multiget_bytes_read = 60
discriminant Tickers.number_filtered_deletes = 61
discriminant Tickers.number_merge_failures = 62
discriminant Tickers.bloom_filter_prefix_checked = 63
discriminant Tickers.bloom_filter_prefix_useful = 64
discriminant Tickers.number_of_reseeks_in_iteration = 65
discriminant Tickers.get_updates_since_calls = 66
discriminant Tickers.block_cache_compressed_miss = 67
discriminant Tickers.block_cache_compressed_hit = 68
discriminant Tickers.block_cache_compressed_add = 69
discriminant Tickers.block_cache_compressed_add_failures = 70
discriminant Tickers.wal_file_synced = 71
discriminant Tickers.wal_file_bytes = 72
discriminant Tickers.write_done_by_self = 73
discriminant Tickers.write_done_by_other = 74
discriminant Tickers.write_timedout = 75
discriminant Tickers.write_with_wal = 76
discriminant Tickers.compact_read_bytes = 77
discriminant Tickers.compact_write_bytes = 78
discriminant Tickers.flush_write_bytes = 79
discriminant Tickers.number_direct_load_table_properties = 80
discriminant Tickers.number_superversion_acquires = 81
discriminant Tickers.number_superversion_releases = 82
discriminant Tickers.number_superversion_cleanups = 83
discriminant Tickers.number_block_compressed = 84
discriminant Tickers.number_block_decompressed = 85
discriminant Tickers.number_block_not_compressed = 86
discriminant Tickers.merge_operation_total_time = 87
discriminant Tickers.filter_operation_total_time = 88
discriminant Tickers.row_cache_hit = 89
discriminant Tickers.row_cache_miss = 90
discriminant Tickers.read_amp_estimate_useful_bytes = 91
discriminant Tickers.read_amp_total_read_bytes = 92
discriminant Tickers.number_rate_limiter_drains = 93

unfoldable pub to_string : Tickers → String
to_string Tickers.block_cache_miss = "rocksdb.block.cache.miss"
to_string Tickers.block_cache_hit = "rocksdb.block.cache.hit"
to_string Tickers.block_cache_add = "rocksdb.block.cache.add"
to_string Tickers.block_cache_add_failures = "rocksdb.block.cache.add.failures"
to_string Tickers.block_cache_index_miss = "rocksdb.block.cache.index.miss"
to_string Tickers.block_cache_index_hit = "rocksdb.block.cache.index.hit"
to_string Tickers.block_cache_index_add = "rocksdb.block.cache.index.add"
to_string Tickers.block_cache_index_bytes_insert = "rocksdb.block.cache.index.bytes.insert"
to_string Tickers.block_cache_index_bytes_evict = "rocksdb.block.cache.index.bytes.evict"
to_string Tickers.block_cache_filter_miss = "rocksdb.block.cache.filter.miss"
to_string Tickers.block_cache_filter_hit = "rocksdb.block.cache.filter.hit"
to_string Tickers.block_cache_filter_add = "rocksdb.block.cache.filter.add"
to_string Tickers.block_cache_filter_bytes_insert = "rocksdb.block.cache.filter.bytes.insert"
to_string Tickers.block_cache_filter_bytes_evict = "rocksdb.block.cache.filter.bytes.evict"
to_string Tickers.block_cache_data_miss = "rocksdb.block.cache.data.miss"
to_string Tickers.block_cache_data_hit = "rocksdb.block.cache.data.hit"
to_string Tickers.block_cache_data_add = "rocksdb.block.cache.data.add"
to_string Tickers.block_cache_data_bytes_insert = "rocksdb.block.cache.data.bytes.insert"
to_string Tickers.block_cache_bytes_read = "rocksdb.block.cache.bytes.read"
to_string Tickers.block_cache_bytes_write = "rocksdb.block.cache.bytes.write"
to_string Tickers.bloom_filter_useful = "rocksdb.bloom.filter.useful"
to_string Tickers.persistent_cache_hit = "rocksdb.persistent.cache.hit"
to_string Tickers.persistent_cache_miss = "rocksdb.persistent.cache.miss"
to_string Tickers.sim_block_cache_hit = "rocksdb.sim.block.cache.hit"
to_string Tickers.sim_block_cache_miss = "rocksdb.sim.block.cache.miss"
to_string Tickers.memtable_hit = "rocksdb.memtable.hit"
to_string Tickers.memtable_miss = "rocksdb.memtable.miss"
to_string Tickers.get_hit_l0 = "rocksdb.l0.hit"
to_string Tickers.get_hit_l1 = "rocksdb.l1.hit"
to_string Tickers.get_hit_l2_and_up = "rocksdb.l2andup.hit"
to_string Tickers.compaction_key_drop_newer_entry = "rocksdb.compaction.key.drop.new"
to_string Tickers.compaction_key_drop_obsolete = "rocksdb.compaction.key.drop.obsolete"
to_string Tickers.compaction_key_drop_range_del = "rocksdb.compaction.key.drop.range_del"
to_string Tickers.compaction_key_drop_user = "rocksdb.compaction.key.drop.user"
to_string Tickers.compaction_range_del_drop_obsolete = "rocksdb.compaction.range_del.drop.obsolete"
to_string Tickers.compaction_optimized_del_drop_obsolete =
    "rocksdb.compaction.optimized.del.drop.obsolete"
to_string Tickers.number_keys_written = "rocksdb.number.keys.written"
to_string Tickers.number_keys_read = "rocksdb.number.keys.read"
to_string Tickers.number_keys_updated = "rocksdb.number.keys.updated"
to_string Tickers.bytes_written = "rocksdb.bytes.written"
to_string Tickers.bytes_read = "rocksdb.bytes.read"
to_string Tickers.number_db_seek = "rocksdb.number.db.seek"
to_string Tickers.number_db_next = "rocksdb.number.db.next"
to_string Tickers.number_db_prev = "rocksdb.number.db.prev"
to_string Tickers.number_db_seek_found = "rocksdb.number.db.seek.found"
to_string Tickers.number_db_next_found = "rocksdb.number.db.next.found"
to_string Tickers.number_db_prev_found = "rocksdb.number.db.prev.found"
to_string Tickers.iter_bytes_read = "rocksdb.db.iter.bytes.read"
to_string Tickers.no_file_closes = "rocksdb.no.file.closes"
to_string Tickers.no_file_opens = "rocksdb.no.file.opens"
to_string Tickers.no_file_errors = "rocksdb.no.file.errors"
to_string Tickers.stall_l0_slowdown_micros = "rocksdb.l0.slowdown.micros"
to_string Tickers.stall_memtable_compaction_micros = "rocksdb.memtable.compaction.micros"
to_string Tickers.stall_l0_num_files_micros = "rocksdb.l0.num.files.stall.micros"
to_string Tickers.stall_micros = "rocksdb.stall.micros"
to_string Tickers.db_mutex_wait_micros = "rocksdb.db.mutex.wait.micros"
to_string Tickers.rate_limit_delay_millis = "rocksdb.rate.limit.delay.millis"
to_string Tickers.no_iterators = "rocksdb.num.iterators"
to_string Tickers.number_multiget_calls = "rocksdb.number.multiget.get"
to_string Tickers.number_multiget_keys_read = "rocksdb.number.multiget.keys.read"
to_string Tickers.number_multiget_bytes_read = "rocksdb.number.multiget.bytes.read"
to_string Tickers.number_filtered_deletes = "rocksdb.number.deletes.filtered"
to_string Tickers.number_merge_failures = "rocksdb.number.merge.failures"
to_string Tickers.bloom_filter_prefix_checked = "rocksdb.bloom.filter.prefix.checked"
to_string Tickers.bloom_filter_prefix_useful = "rocksdb.bloom.filter.prefix.useful"
to_string Tickers.number_of_reseeks_in_iteration = "rocksdb.number.reseeks.iteration"
to_string Tickers.get_updates_since_calls = "rocksdb.getupdatessince.calls"
to_string Tickers.block_cache_compressed_miss = "rocksdb.block.cachecompressed.miss"
to_string Tickers.block_cache_compressed_hit = "rocksdb.block.cachecompressed.hit"
to_string Tickers.block_cache_compressed_add = "rocksdb.block.cachecompressed.add"
to_string Tickers.block_cache_compressed_add_failures = "rocksdb.block.cachecompressed.add.failures"
to_string Tickers.wal_file_synced = "rocksdb.wal.synced"
to_string Tickers.wal_file_bytes = "rocksdb.wal.bytes"
to_string Tickers.write_done_by_self = "rocksdb.write.self"
to_string Tickers.write_done_by_other = "rocksdb.write.other"
to_string Tickers.write_timedout = "rocksdb.write.timeout"
to_string Tickers.write_with_wal = "rocksdb.write.wal"
to_string Tickers.compact_read_bytes = "rocksdb.compact.read.bytes"
to_string Tickers.compact_write_bytes = "rocksdb.compact.write.bytes"
to_string Tickers.flush_write_bytes = "rocksdb.flush.write.bytes"
to_string Tickers.number_direct_load_table_properties =
    "rocksdb.number.direct.load.table.properties"
to_string Tickers.number_superversion_acquires = "rocksdb.number.superversion_acquires"
to_string Tickers.number_superversion_releases = "rocksdb.number.superversion_releases"
to_string Tickers.number_superversion_cleanups = "rocksdb.number.superversion_cleanups"
to_string Tickers.number_block_compressed = "rocksdb.number.block.compressed"
to_string Tickers.number_block_decompressed = "rocksdb.number.block.decompressed"
to_string Tickers.number_block_not_compressed = "rocksdb.number.block.not_compressed"
to_string Tickers.merge_operation_total_time = "rocksdb.merge.operation.time.nanos"
to_string Tickers.filter_operation_total_time = "rocksdb.filter.operation.time.nanos"
to_string Tickers.row_cache_hit = "rocksdb.row.cache.hit"
to_string Tickers.row_cache_miss = "rocksdb.row.cache.miss"
to_string Tickers.read_amp_estimate_useful_bytes = "rocksdb.read.amp.estimate.useful.bytes"
to_string Tickers.read_amp_total_read_bytes = "rocksdb.read.amp.total.read.bytes"
to_string Tickers.number_rate_limiter_drains = "rocksdb.number.rate_limiter.drains"
