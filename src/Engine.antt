-- ===== src/Engine.antt =====
-- What the crate and its C++ glue (rocks-sys/rocks/*.cc) call of the RocksDB library and of Rust's
-- standard library, neither of which is in the repository: a parameter of the model, with the
-- documented behaviour that the theorems use as laws.
use rust_rocks.Common.{ℕ, ◌≡◌, Bool, Option, List, Bytes, ◌==◌, length}

-- The methods of `rocksdb::DB` that report only a status, with their arguments. Those with no
-- column family are the overloads that take none.
pub data Call (Cf WriteOptions FlushOptions RangeOptions Batch : Type 0) : Type 0 where
  put : WriteOptions → Bytes → Bytes → Call Cf WriteOptions FlushOptions RangeOptions Batch
  put_cf : WriteOptions → Cf → Bytes → Bytes → Call Cf WriteOptions FlushOptions RangeOptions Batch
  delete : WriteOptions → Bytes → Call Cf WriteOptions FlushOptions RangeOptions Batch
  delete_cf : WriteOptions → Cf → Bytes → Call Cf WriteOptions FlushOptions RangeOptions Batch
  single_delete : WriteOptions → Bytes → Call Cf WriteOptions FlushOptions RangeOptions Batch
  single_delete_cf :
      WriteOptions → Cf → Bytes → Call Cf WriteOptions FlushOptions RangeOptions Batch
  delete_range_cf :
      WriteOptions → Cf → Bytes → Bytes → Call Cf WriteOptions FlushOptions RangeOptions Batch
  merge : WriteOptions → Bytes → Bytes → Call Cf WriteOptions FlushOptions RangeOptions Batch
  merge_cf :
      WriteOptions → Cf → Bytes → Bytes → Call Cf WriteOptions FlushOptions RangeOptions Batch
  write : WriteOptions → Batch → Call Cf WriteOptions FlushOptions RangeOptions Batch
  drop_column_family : Cf → Call Cf WriteOptions FlushOptions RangeOptions Batch
  destroy_column_family_handle : Cf → Call Cf WriteOptions FlushOptions RangeOptions Batch
  -- a bound is `nullptr` or a slice
  compact_range :
      RangeOptions
      → Option Bytes
      → Option Bytes
      → Call Cf WriteOptions FlushOptions RangeOptions Batch
  compact_range_cf :
      RangeOptions
      → Cf
      → Option Bytes
      → Option Bytes
      → Call Cf WriteOptions FlushOptions RangeOptions Batch
  set_options : Cf → List (Bytes × Bytes) → Call Cf WriteOptions FlushOptions RangeOptions Batch
  set_db_options : List (Bytes × Bytes) → Call Cf WriteOptions FlushOptions RangeOptions Batch
  pause_background_work : Call Cf WriteOptions FlushOptions RangeOptions Batch
  continue_background_work : Call Cf WriteOptions FlushOptions RangeOptions Batch
  enable_auto_compaction : List Cf → Call Cf WriteOptions FlushOptions RangeOptions Batch
  flush : FlushOptions → Call Cf WriteOptions FlushOptions RangeOptions Batch
  sync_wal : Call Cf WriteOptions FlushOptions RangeOptions Batch
  disable_file_deletions : Call Cf WriteOptions FlushOptions RangeOptions Batch
  enable_file_deletions : Bool → Call Cf WriteOptions FlushOptions RangeOptions Batch
  delete_file : Bytes → Call Cf WriteOptions FlushOptions RangeOptions Batch
  delete_files_in_range : Cf → Bytes → Bytes → Call Cf WriteOptions FlushOptions RangeOptions Batch

pub record Engine : Type 1 where
  -- `rocksdb::Status`
  pub Rep : Type 0
  pub is_ok : Rep → Bool
  pub code : Rep → ℕ
  pub subcode : Rep → ℕ
  -- the C string that `getState()` points to, if that is not null
  pub get_state : Rep → Option Bytes
  pub invalid_argument : Bytes → Rep
  -- `std::str::from_utf8` succeeds
  pub is_utf8 : Bytes → Bool
  -- `rocksdb::DB` with all that it holds; column family handles and snapshots by their address
  pub Db : Type 0
  pub Cf : Type 0
  pub Snap : Type 0
  pub WriteOptions : Type 0
  pub ReadOptions : Type 0
  pub FlushOptions : Type 0
  pub RangeOptions : Type 0
  pub CfOptions : Type 0
  pub Batch : Type 0
  pub call : Call Cf WriteOptions FlushOptions RangeOptions Batch → Db → Rep × Db
  pub default_column_family : Db → Cf
  pub create_column_family : CfOptions → Bytes → Db → Rep × Cf × Db
  pub cf_name : Cf → Bytes
  pub cf_id : Cf → ℕ
  -- the status, and what the slice is pinned to
  pub get : ReadOptions → Cf → Bytes → Db → Rep × Bytes
  pub multi_get : ReadOptions → List Bytes → Db → List (Rep × Bytes)
  pub multi_get_cf : ReadOptions → List (Cf × Bytes) → Db → List (Rep × Bytes)
  -- the answer, whether the value was found, and the value
  pub key_may_exist : ReadOptions → Bytes → Db → Bool × Bool × Bytes
  pub key_may_exist_cf : ReadOptions → Cf → Bytes → Db → Bool × Bool × Bytes
  -- the same with `nullptr` for the value, which is not documented: none if the library reads it
  pub key_may_exist_cf_null : ReadOptions → Cf → Bytes → Db → Option Bool
  pub get_property : Bytes → Db → Option Bytes
  pub get_property_cf : Cf → Bytes → Db → Option Bytes
  pub get_int_property : Bytes → Db → Option ℕ
  pub get_int_property_cf : Cf → Bytes → Db → Option ℕ
  -- `nullptr` where the database takes no snapshots
  pub get_snapshot : Db → Option Snap × Db
  pub release_snapshot : Option Snap → Db → Db
  pub snapshot_sequence : Snap → ℕ
  -- `ok()` is `code() == kOk`, and `kOk` is 0
  pub is_ok_iff_code : (s : Rep) → is_ok s ≡ (code s == 0)
  -- `Status::InvalidArgument(msg)`
  pub code-invalid_argument : (msg : Bytes) → code (invalid_argument msg) ≡ 4
  pub subcode-invalid_argument : (msg : Bytes) → subcode (invalid_argument msg) ≡ 0
  -- `MultiGet` answers each key
  pub length-multi_get :
      (o : ReadOptions) (ks : List Bytes) (d : Db) → length (multi_get o ks d) ≡ length ks
  pub length-multi_get_cf :
      (o : ReadOptions) (ks : List (Cf × Bytes)) (d : Db) → length (multi_get_cf o ks d) ≡ length ks
