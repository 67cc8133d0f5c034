-- ===== src/Db/Glue.antt =====
-- rocks-sys/rocks/db.cc: the functions that make one call of `rocksdb::DB` and save its status.
-- Each returns the pointer that it writes to `*status`.
use rust_rocks.Common.{ℕ, Option, none, some, List, [], ◌∷◌, Bytes, of_u8, take}
use rust_rocks.Ffi.{Ptr, Outcome, fault, M, pure, ◌>>=◌, load}
use rust_rocks.Ffi.Object.{Object, cf_handle}
use rust_rocks.Engine.{Engine, Call}
use rust_rocks.WriteBatch.Raw.{load_batch}
use rust_rocks.Error.{Native, save_error}

-- `(key ? (a = Slice(key, len), &a) : nullptr)`
abbrev pub slice_or_null : Option Bytes → ℕ → Option Bytes
slice_or_null none n = none
slice_or_null (some bs) n = some (take n bs)

module _ (E : Engine) where
  abbrev pub DbCall : Type 0
  DbCall = Call E.Cf E.WriteOptions E.FlushOptions E.RangeOptions E.Batch

  -- A method of `rocksdb::DB` that returns a status.
  abbrev pub engine_call : DbCall → M (Native E) E.Rep
  engine_call c w = let (s, d) = E.call c w.state in Outcome.done s (record w { state = d })

  -- What is read through a `rocks_column_family_handle_t*`.
  abbrev pub expect_cf : Object E.Rep E.Cf E.Snap E.Batch → M (Native E) E.Cf
  expect_cf (cf_handle c) w = Outcome.done c w
  expect_cf _ w = fault

  unfoldable pub load_cf : Ptr → M (Native E) E.Cf
  load_cf p = load p >>= expect_cf

  unfoldable pub load_cfs : List Ptr → M (Native E) (List E.Cf)
  unfolding load_cf
  load_cfs [] = pure []
  load_cfs (p ∷ ps) = do c ← load_cf p; cs ← load_cfs ps; pure (c ∷ cs)

  -- `DB::m(...)` followed by `SaveError(status, ...)`
  unfoldable pub call_and_save : DbCall → M (Native E) Ptr
  unfolding save_error
  call_and_save c = do s ← engine_call c; save_error E s

  unfoldable pub rocks_db_put : E.WriteOptions → Bytes → Bytes → M (Native E) Ptr
  unfolding call_and_save
  rocks_db_put o k v = call_and_save (Call.put o k v)

  unfoldable pub rocks_db_delete : E.WriteOptions → Bytes → M (Native E) Ptr
  unfolding call_and_save
  rocks_db_delete o k = call_and_save (Call.delete o k)

  unfoldable pub rocks_db_single_delete : E.WriteOptions → Bytes → M (Native E) Ptr
  unfolding call_and_save
  rocks_db_single_delete o k = call_and_save (Call.single_delete o k)

  unfoldable pub rocks_db_merge : E.WriteOptions → Bytes → Bytes → M (Native E) Ptr
  unfolding call_and_save
  rocks_db_merge o k v = call_and_save (Call.merge o k v)

  unfoldable pub rocks_db_write : E.WriteOptions → Ptr → M (Native E) Ptr
  unfolding load_batch call_and_save
  rocks_db_write o p = do b ← load_batch E p; call_and_save (Call.write o b)

  unfoldable pub rocks_db_pause_background_work : M (Native E) Ptr
  unfolding call_and_save
  rocks_db_pause_background_work = call_and_save Call.pause_background_work

  unfoldable pub rocks_db_continue_background_work : M (Native E) Ptr
  unfolding call_and_save
  rocks_db_continue_background_work = call_and_save Call.continue_background_work

  unfoldable pub rocks_db_flush : E.FlushOptions → M (Native E) Ptr
  unfolding call_and_save
  rocks_db_flush o = call_and_save (Call.flush o)

  unfoldable pub rocks_db_sync_wal : M (Native E) Ptr
  unfolding call_and_save
  rocks_db_sync_wal = call_and_save Call.sync_wal

  unfoldable pub rocks_db_disable_file_deletions : M (Native E) Ptr
  unfolding call_and_save
  rocks_db_disable_file_deletions = call_and_save Call.disable_file_deletions

  unfoldable pub rocks_db_delete_file : Bytes → M (Native E) Ptr
  unfolding call_and_save
  rocks_db_delete_file name = call_and_save (Call.delete_file name)

  unfoldable pub rocks_db_put_cf : E.WriteOptions → Ptr → Bytes → Bytes → M (Native E) Ptr
  unfolding load_cf call_and_save
  rocks_db_put_cf o cf k v = do c ← load_cf cf; call_and_save (Call.put_cf o c k v)

  unfoldable pub rocks_db_delete_cf : E.WriteOptions → Ptr → Bytes → M (Native E) Ptr
  unfolding load_cf call_and_save
  rocks_db_delete_cf o cf k = do c ← load_cf cf; call_and_save (Call.delete_cf o c k)

  unfoldable pub rocks_db_single_delete_cf : E.WriteOptions → Ptr → Bytes → M (Native E) Ptr
  unfolding load_cf call_and_save
  rocks_db_single_delete_cf o cf k = do c ← load_cf cf; call_and_save (Call.single_delete_cf o c k)

  unfoldable pub rocks_db_delete_range_cf : E.WriteOptions → Ptr → Bytes → Bytes → M (Native E) Ptr
  unfolding load_cf call_and_save
  rocks_db_delete_range_cf o cf b e = do
    c ← load_cf cf
    call_and_save (Call.delete_range_cf o c b e)

  unfoldable pub rocks_db_merge_cf : E.WriteOptions → Ptr → Bytes → Bytes → M (Native E) Ptr
  unfolding load_cf call_and_save
  rocks_db_merge_cf o cf k v = do c ← load_cf cf; call_and_save (Call.merge_cf o c k v)

  unfoldable pub rocks_db_enable_file_deletions : ℕ → M (Native E) Ptr
  unfolding call_and_save
  rocks_db_enable_file_deletions force = call_and_save (Call.enable_file_deletions (of_u8 force))

  unfoldable pub rocks_db_drop_column_family : Ptr → M (Native E) Ptr
  unfolding load_cf call_and_save
  rocks_db_drop_column_family cf = do c ← load_cf cf; call_and_save (Call.drop_column_family c)

  unfoldable pub rocks_db_enable_auto_compaction : List Ptr → M (Native E) Ptr
  unfolding load_cfs call_and_save
  rocks_db_enable_auto_compaction cfs = do
    cs ← load_cfs cfs
    call_and_save (Call.enable_auto_compaction cs)

  unfoldable pub rocks_db_delete_files_in_range : Ptr → Bytes → Bytes → M (Native E) Ptr
  unfolding load_cf call_and_save
  rocks_db_delete_files_in_range cf b e = do
    c ← load_cf cf
    call_and_save (Call.delete_files_in_range c b e)

  unfoldable pub rocks_db_compact_range_opt :
      E.RangeOptions → Option Bytes → ℕ → Option Bytes → ℕ → M (Native E) Ptr
  unfolding call_and_save
  rocks_db_compact_range_opt o start start_len limit limit_len =
      call_and_save
        (Call.compact_range o (slice_or_null start start_len) (slice_or_null limit limit_len))

  unfoldable pub rocks_db_compact_range_opt_cf :
      E.RangeOptions → Ptr → Option Bytes → ℕ → Option Bytes → ℕ → M (Native E) Ptr
  unfolding load_cf call_and_save
  rocks_db_compact_range_opt_cf o cf start start_len limit limit_len = do
    c ← load_cf cf
    call_and_save
        (Call.compact_range_cf o c (slice_or_null start start_len) (slice_or_null limit limit_len))
