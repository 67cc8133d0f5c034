-- ===== src/Statistics/Histogram.antt =====
-- The enum `Histograms` of src/statistics.rs: its discriminants, and the names that `Display` writes.
use rust_rocks.Common.{ℕ}
use Prim.Native.String.{String}

pub data Histograms : Type 0 where
  db_get db_write compaction_time subcompaction_setup_time table_sync_micros : Histograms
  compaction_outfile_sync_micros wal_file_sync_micros manifest_file_sync_micros : Histograms
  table_open_io_micros db_multiget read_block_compaction_micros read_block_get_micros : Histograms
  write_raw_block_micros stall_l0_slowdown_count stall_memtable_compaction_count : Histograms
  stall_l0_num_files_count hard_rate_limit_delay_count soft_rate_limit_delay_count : Histograms
  num_files_in_single_compaction db_seek write_stall sst_read_micros : Histograms
  num_subcompactions_scheduled bytes_per_read bytes_per_write bytes_per_multiget : Histograms
  bytes_compressed bytes_decompressed compression_times_nanos decompression_times_nanos : Histograms

unfoldable pub discriminant : Histograms → ℕ
discriminant Histograms.db_get = 0
discriminant Histograms.db_write = 1
discriminant Histograms.compaction_time = 2
discriminant Histograms.subcompaction_setup_time = 3
discriminant Histograms.table_sync_micros = 4
discriminant Histograms.compaction_outfile_sync_micros = 5
discriminant Histograms.wal_file_sync_micros = 6
discriminant Histograms.manifest_file_sync_micros = 7
discriminant Histograms.table_open_io_micros = 8
discriminant Histograms.db_multiget = 9
discriminant Histograms.read_block_compaction_micros = 10
discriminant Histograms.read_block_get_micros = 11
discriminant Histograms.write_raw_block_micros = 12
discriminant Histograms.stall_l0_slowdown_count = 13
discriminant Histograms.stall_memtable_compaction_count = 14
discriminant Histograms.stall_l0_num_files_count = 15
discriminant Histograms.hard_rate_limit_delay_count = 16
discriminant Histograms.soft_rate_limit_delay_count = 17
discriminant Histograms.num_files_in_single_compaction = 18
discriminant Histograms.db_seek = 19
discriminant Histograms.write_stall = 20
discriminant Histograms.sst_read_micros = 21
discriminant Histograms.num_subcompactions_scheduled = 22
discriminant Histograms.bytes_per_read = 23
discriminant Histograms.bytes_per_write = 24
discriminant Histograms.bytes_per_multiget = 25
discriminant Histograms.bytes_compressed = 26
discriminant Histograms.bytes_decompressed = 27
discriminant Histograms.compression_times_nanos = 28
discriminant Histograms.decompression_times_nanos = 29

unfoldable pub to_string : Histograms → String
to_string Histograms.db_get = "rocksdb.db.get.micros"
to_string Histograms.db_write = "rocksdb.db.write.micros"
to_string Histograms.compaction_time = "rocksdb.compaction.times.micros"
to_string Histograms.subcompaction_setup_time = "rocksdb.subcompaction.setup.times.micros"
to_string Histograms.table_sync_micros = "rocksdb.table.sync.micros"
to_string Histograms.compaction_outfile_sync_micros = "rocksdb.compaction.outfile.sync.micros"
to_string Histograms.wal_file_sync_micros = "rocksdb.wal.file.sync.micros"
to_string Histograms.manifest_file_sync_micros = "rocksdb.manifest.file.sync.micros"
to_string Histograms.table_open_io_micros = "rocksdb.table.open.io.micros"
to_string Histograms.db_multiget = "rocksdb.db.multiget.micros"
to_string Histograms.read_block_compaction_micros = "rocksdb.read.block.compaction.micros"
to_string Histograms.read_block_get_micros = "rocksdb.read.block.get.micros"
to_string Histograms.write_raw_block_micros = "rocksdb.write.raw.block.micros"
to_string Histograms.stall_l0_slowdown_count = "rocksdb.l0.slowdown.count"
to_string Histograms.stall_memtable_compaction_count = "rocksdb.memtable.compaction.count"
to_string Histograms.stall_l0_num_files_count = "rocksdb.num.files.stall.count"
to_string Histograms.hard_rate_limit_delay_count = "rocksdb.hard.rate.limit.delay.count"
to_string Histograms.soft_rate_limit_delay_count = "rocksdb.soft.rate.limit.delay.count"
to_string Histograms.num_files_in_single_compaction = "rocksdb.numfiles.in.singlecompaction"
to_string Histograms.db_seek = "rocksdb.db.seek.micros"
to_string Histograms.write_stall = "rocksdb.db.write.stall"
to_string Histograms.sst_read_micros = "rocksdb.sst.read.micros"
to_string Histograms.num_subcompactions_scheduled = "rocksdb.num.subcompactions.scheduled"
to_string Histograms.bytes_per_read = "rocksdb.bytes.per.read"
to_string Histograms.bytes_per_write = "rocksdb.bytes.per.write"
to_string Histograms.bytes_per_multiget = "rocksdb.bytes.per.multiget"
to_string Histograms.bytes_compressed = "rocksdb.bytes.compressed"
to_string Histograms.bytes_decompressed = "rocksdb.bytes.decompressed"
to_string Histograms.compression_times_nanos = "rocksdb.compression.times.nanos"
to_string Histograms.decompression_times_nanos = "rocksdb.decompression.times.nanos"
