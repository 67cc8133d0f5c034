-- ===== src/Db.antt =====
-- `DBRef` of src/db.rs: the methods that report only success or failure. Each calls the glue of
-- Db/Glue.antt and takes over the status that it saves. A `&[u8]` argument is the bytes that its
-- pointer and length delimit, and an options argument is what the native options object holds.
pub mod Glue
pub mod Ranges
pub mod Requests
pub mod Family
pub mod Snapshots
pub mod Property
pub mod Dynamic
pub mod MultiGet
pub mod Opening
pub mod Read
use rust_rocks.Common.{Bool, Option, List, Bytes, to_u8}
use rust_rocks.Ffi.{Ptr, M, pure, ◌>>=◌, ◌>>◌}
use rust_rocks.Engine.{Engine}
use rust_rocks.WriteBatch.Raw.{WriteBatch, drop_batch}
use rust_rocks.Error.{Result, Native, from_ll}
use Glue
use Ranges.{Range, start_key, start_key_len, end_key, end_key_len}

module _ (E : Engine) where
  unfoldable pub put : E.WriteOptions → Bytes → Bytes → M (Native E) (Result (Unit {0}))
  unfolding Glue.rocks_db_put from_ll
  put o k v = do status ← Glue.rocks_db_put E o k v; from_ll E status

  unfoldable pub delete : E.WriteOptions → Bytes → M (Native E) (Result (Unit {0}))
  unfolding Glue.rocks_db_delete from_ll
  delete o k = do status ← Glue.rocks_db_delete E o k; from_ll E status

  unfoldable pub single_delete : E.WriteOptions → Bytes → M (Native E) (Result (Unit {0}))
  unfolding Glue.rocks_db_single_delete from_ll
  single_delete o k = do status ← Glue.rocks_db_single_delete E o k; from_ll E status

  unfoldable pub merge : E.WriteOptions → Bytes → Bytes → M (Native E) (Result (Unit {0}))
  unfolding Glue.rocks_db_merge from_ll
  merge o k v = do status ← Glue.rocks_db_merge E o k v; from_ll E status

  -- The batch is taken by value, so it is dropped at the end.
  unfoldable pub write : E.WriteOptions → WriteBatch → M (Native E) (Result (Unit {0}))
  unfolding Glue.rocks_db_write from_ll drop_batch
  write o updates = do
    status ← Glue.rocks_db_write E o updates.raw
    r ← from_ll E status
    drop_batch E updates
    pure r

  unfoldable pub pause_background_work : M (Native E) (Result (Unit {0}))
  unfolding Glue.rocks_db_pause_background_work from_ll
  pause_background_work = do status ← Glue.rocks_db_pause_background_work E; from_ll E status

  unfoldable pub continue_background_work : M (Native E) (Result (Unit {0}))
  unfolding Glue.rocks_db_continue_background_work from_ll
  continue_background_work = do status ← Glue.rocks_db_continue_background_work E; from_ll E status

  unfoldable pub flush : E.FlushOptions → M (Native E) (Result (Unit {0}))
  unfolding Glue.rocks_db_flush from_ll
  flush o = do status ← Glue.rocks_db_flush E o; from_ll E status

  unfoldable pub sync_wal : M (Native E) (Result (Unit {0}))
  unfolding Glue.rocks_db_sync_wal from_ll
  sync_wal = do status ← Glue.rocks_db_sync_wal E; from_ll E status

  unfoldable pub disable_file_deletions : M (Native E) (Result (Unit {0}))
  unfolding Glue.rocks_db_disable_file_deletions from_ll
  disable_file_deletions = do status ← Glue.rocks_db_disable_file_deletions E; from_ll E status

  unfoldable pub delete_file : Bytes → M (Native E) (Result (Unit {0}))
  unfolding Glue.rocks_db_delete_file from_ll
  delete_file name = do status ← Glue.rocks_db_delete_file E name; from_ll E status

  unfoldable pub put_cf : E.WriteOptions → Ptr → Bytes → Bytes → M (Native E) (Result (Unit {0}))
  unfolding Glue.rocks_db_put_cf from_ll
  put_cf o cf k v = do status ← Glue.rocks_db_put_cf E o cf k v; from_ll E status

  unfoldable pub delete_cf : E.WriteOptions → Ptr → Bytes → M (Native E) (Result (Unit {0}))
  unfolding Glue.rocks_db_delete_cf from_ll
  delete_cf o cf k = do status ← Glue.rocks_db_delete_cf E o cf k; from_ll E status

  unfoldable pub single_delete_cf : E.WriteOptions → Ptr → Bytes → M (Native E) (Result (Unit {0}))
  unfolding Glue.rocks_db_single_delete_cf from_ll
  single_delete_cf o cf k = do status ← Glue.rocks_db_single_delete_cf E o cf k; from_ll E status

  unfoldable pub delete_range_cf :
      E.WriteOptions → Ptr → Bytes → Bytes → M (Native E) (Result (Unit {0}))
  unfolding Glue.rocks_db_delete_range_cf from_ll
  delete_range_cf o cf b e = do status ← Glue.rocks_db_delete_range_cf E o cf b e; from_ll E status

  unfoldable pub merge_cf : E.WriteOptions → Ptr → Bytes → Bytes → M (Native E) (Result (Unit {0}))
  unfolding Glue.rocks_db_merge_cf from_ll
  merge_cf o cf k v = do status ← Glue.rocks_db_merge_cf E o cf k v; from_ll E status

  unfoldable pub enable_file_deletions : Bool → M (Native E) (Result (Unit {0}))
  unfolding Glue.rocks_db_enable_file_deletions from_ll
  enable_file_deletions force = do
    status ← Glue.rocks_db_enable_file_deletions E (to_u8 force)
    from_ll E status

  unfoldable pub drop_column_family : Ptr → M (Native E) (Result (Unit {0}))
  unfolding Glue.rocks_db_drop_column_family from_ll
  drop_column_family cf = do status ← Glue.rocks_db_drop_column_family E cf; from_ll E status

  unfoldable pub enable_auto_compaction : List Ptr → M (Native E) (Result (Unit {0}))
  unfolding Glue.rocks_db_enable_auto_compaction from_ll
  enable_auto_compaction cfs = do
    status ← Glue.rocks_db_enable_auto_compaction E cfs
    from_ll E status

  unfoldable pub delete_files_in_range : Ptr → Bytes → Bytes → M (Native E) (Result (Unit {0}))
  unfolding Glue.rocks_db_delete_files_in_range from_ll
  delete_files_in_range cf b e = do
    status ← Glue.rocks_db_delete_files_in_range E cf b e
    from_ll E status

  unfoldable pub compact_range : E.RangeOptions → Range → M (Native E) (Result (Unit {0}))
  unfolding Glue.rocks_db_compact_range_opt start_key start_key_len end_key end_key_len from_ll
  compact_range o r = do
    status ←
        Glue.rocks_db_compact_range_opt E o (start_key r) (start_key_len r) (end_key r)
          (end_key_len r)
    from_ll E status
