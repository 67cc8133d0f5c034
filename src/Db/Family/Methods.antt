-- ===== src/Db/Family/Methods.antt =====
-- The methods of `ColumnFamily` in src/db.rs that report only success or failure. They are the
-- methods of `DBRef` with the handle of the column family filled in.
use rust_rocks.Common.{Bytes}
use rust_rocks.Ffi.{M, ◌>>=◌}
use rust_rocks.Engine.{Engine}
use rust_rocks.Error.{Result, Native, from_ll}
use rust_rocks.Db.Glue
use rust_rocks.Db.Glue.{load_cf, engine_call}
use rust_rocks.Db.Ranges.{Range, start_key, start_key_len, end_key, end_key_len}
use rust_rocks.Db.Family.{ColumnFamily}

module _ (E : Engine) where
  unfoldable pub put :
      ColumnFamily → E.WriteOptions → Bytes → Bytes → M (Native E) (Result (Unit {0}))
  unfolding Glue.rocks_db_put_cf from_ll
  put cf o k v = do status ← Glue.rocks_db_put_cf E o cf.handle.raw k v; from_ll E status

  unfoldable pub delete : ColumnFamily → E.WriteOptions → Bytes → M (Native E) (Result (Unit {0}))
  unfolding Glue.rocks_db_delete_cf from_ll
  delete cf o k = do status ← Glue.rocks_db_delete_cf E o cf.handle.raw k; from_ll E status

  unfoldable pub single_delete :
      ColumnFamily → E.WriteOptions → Bytes → M (Native E) (Result (Unit {0}))
  unfolding Glue.rocks_db_single_delete_cf from_ll
  single_delete cf o k = do
    status ← Glue.rocks_db_single_delete_cf E o cf.handle.raw k
    from_ll E status

  unfoldable pub delete_range :
      ColumnFamily → E.WriteOptions → Bytes → Bytes → M (Native E) (Result (Unit {0}))
  unfolding Glue.rocks_db_delete_range_cf from_ll
  delete_range cf o b e = do
    status ← Glue.rocks_db_delete_range_cf E o cf.handle.raw b e
    from_ll E status

  unfoldable pub merge :
      ColumnFamily → E.WriteOptions → Bytes → Bytes → M (Native E) (Result (Unit {0}))
  unfolding Glue.rocks_db_merge_cf from_ll
  merge cf o k v = do status ← Glue.rocks_db_merge_cf E o cf.handle.raw k v; from_ll E status

  unfoldable pub compact_range :
      ColumnFamily → E.RangeOptions → Range → M (Native E) (Result (Unit {0}))
  unfolding Glue.rocks_db_compact_range_opt_cf from_ll start_key start_key_len end_key end_key_len
  compact_range cf o r = do
    status ←
        Glue.rocks_db_compact_range_opt_cf E o cf.handle.raw (start_key r) (start_key_len r)
          (end_key r) (end_key_len r)
    from_ll E status
