-- ===== src/Db/Opening.antt =====
-- Opening, closing and destroying a database: `DB` and its associated functions of src/db.rs, with the glue of rocks-sys/rocks/db.cc. The state of the engine is what is on disk and
-- in memory. An options argument is what the native options object holds.
pub mod Columns
pub mod Names
pub mod Closed
pub mod Filled
pub mod Families
pub mod Strings
pub mod Listed
use rust_rocks.Common.{
  ℕ, zero, suc, ◌+◌, ◌%◌, ◌^◌, ◌≡◌, Bool, true, false, Option, none, some, List, [], ◌∷◌, Bytes,
  ◌&&◌, ◌==◌, if◌then◌else◌, length, take, map, ltb,
}
use rust_rocks.Ffi.{
  Ptr, null, Outcome, done, panic, fault, M, pure, and_then, ◌>>=◌, ◌>>◌, alloc, load, free,
}
use rust_rocks.Ffi.Object.{Object, cf_handle, database, db_ref, strings}
use rust_rocks.Engine.{Engine}
use rust_rocks.Error.{Result, Native, save_error, from_ll, drop_status, c_string}
use rust_rocks.Db.Family.{no_nul, ColumnFamily, drop_family}

-- The static functions of `rocksdb::DB`, with the options that they take. `open_db` and
-- `open_for_read_only` give the new `DB*` if the status is ok, and so does `open_families`, with
-- the handles.
pub record Opener (E : Engine) : Type 1 where
  pub Options : Type 0
  pub open_db : Options → Bytes → E.Db → E.Rep × ℕ × E.Db
  pub open_for_read_only : Options → Bytes → Bool → E.Db → E.Rep × ℕ × E.Db
  pub open_families :
      Options → Bytes → List (Bytes × E.CfOptions) → E.Db → E.Rep × ℕ × List E.Cf × E.Db
  pub cf_options : Options → E.CfOptions
  pub list_column_families : Options → Bytes → E.Db → E.Rep × List Bytes
  pub destroy_db : Bytes → Options → E.Db → E.Rep × E.Db
  pub repair_db : Bytes → Options → E.Db → E.Rep × E.Db
  -- the destructor of `DB`
  pub close : ℕ → E.Db → E.Db
  -- "If everything is OK, handles will on return be the same size as column_families"
  pub length-open_families :
      (o : Options) (name : Bytes) (cs : List (Bytes × E.CfOptions)) (d : E.Db)
      → E.is_ok (open_families o name cs d).0 ≡ true
      → length (open_families o name cs d).2 ≡ length cs

-- `DB`, with the address of its `Box<DBRef>`
pub record DbBox : Type 0 where
  pub context : Ptr

module _ (E : Engine) (L : Opener E) where
  abbrev pub and_save : E.Rep → M (Native E) Ptr → M (Native E) (Ptr × Ptr)
  unfolding save_error
  and_save st make = do
    status ← save_error E st
    if status == null then (do p ← make; pure (p, status)) else pure (null, status)

  -- the `rocks_db_t`, and the pointer written to `*status`
  unfoldable pub rocks_db_open : L.Options → Bytes → M (Native E) (Ptr × Ptr)
  rocks_db_open o name w =
      let (st, rep, d) = L.open_db o name w.state in
      and_save st (alloc (database rep)) (record w { state = d })

  unfoldable pub rocks_db_open_for_read_only : L.Options → Bytes → Bool → M (Native E) (Ptr × Ptr)
  rocks_db_open_for_read_only o name error_if_log_file_exist w =
      let (st, rep, d) = L.open_for_read_only o name error_if_log_file_exist w.state in
      and_save st (alloc (database rep)) (record w { state = d })

  abbrev pub expect_database : Object E.Rep E.Cf E.Snap E.Batch → M (Native E) ℕ
  expect_database (database rep) w = done rep w
  expect_database _ w = fault

  unfoldable pub rocks_db_close : Ptr → M (Native E) (Unit {0})
  rocks_db_close db = do
    o ← load db
    rep ← expect_database o
    (λ w. done tt (record w { state = L.close rep w.state }))
    free db

  abbrev pub expect_ref : Object E.Rep E.Cf E.Snap E.Batch → M (Native E) Ptr
  expect_ref (db_ref raw) w = done raw w
  expect_ref _ w = fault

  -- `self.context.raw()`, and `raw` through a `&DBRef`
  unfoldable pub raw : Ptr → M (Native E) Ptr
  raw context = do o ← load context; expect_ref o

  -- `DB::from_ll`
  unfoldable pub db_from_ll : Ptr → M (Native E) DbBox
  db_from_ll p = do context ← alloc (db_ref p); pure (record { context = context })

  -- `Drop for DB`, and then the drop of the box
  unfoldable pub drop_db : DbBox → M (Native E) (Unit {0})
  unfolding raw rocks_db_close
  drop_db db = do p ← raw db.context; rocks_db_close p; free db.context

  -- `name.as_ref().to_str().and_then(|s| CString::new(s).ok()).unwrap()`
  unfoldable pub c_name : Bytes → M (Native E) Bytes
  unfolding no_nul
  c_name name w = if E.is_utf8 name && no_nul name then done name w else panic w

  -- `Result::map` with a closure that has effects
  abbrev pub map_run : {A B : Type 0} → (A → M (Native E) B) → Result A → M (Native E) (Result B)
  map_run f (Result.ok a) = do b ← f a; pure (Result.ok b)
  map_run f (Result.err s) = pure (Result.err s)

  unfoldable pub open_db : L.Options → Bytes → M (Native E) (Result DbBox)
  unfolding rocks_db_open from_ll db_from_ll c_name
  open_db options name = do
    dbname ← c_name name
    (db_ptr, status) ← rocks_db_open options dbname
    r ← from_ll E status
    map_run (λ _. db_from_ll db_ptr) r

  unfoldable pub open_for_readonly : L.Options → Bytes → Bool → M (Native E) (Result DbBox)
  unfolding rocks_db_open_for_read_only from_ll db_from_ll c_name
  open_for_readonly options name error_if_log_file_exist = do
    dbname ← c_name name
    (db_ptr, status) ← rocks_db_open_for_read_only options dbname error_if_log_file_exist
    r ← from_ll E status
    map_run (λ _. db_from_ll db_ptr) r

  -- the pointer written to `*status`
  unfoldable pub rocks_destroy_db : L.Options → Bytes → M (Native E) Ptr
  unfolding save_error
  rocks_destroy_db o name w =
      let (st, d) = L.destroy_db name o w.state in save_error E st (record w { state = d })

  unfoldable pub rocks_repair_db : L.Options → Bytes → M (Native E) Ptr
  unfolding save_error
  rocks_repair_db o name w =
      let (st, d) = L.repair_db name o w.state in save_error E st (record w { state = d })

  -- `name.as_ref().to_str().expect("valid utf8")`
  abbrev pub utf8_name : Bytes → M (Native E) Bytes
  utf8_name name w = if E.is_utf8 name then done name w else panic w

  unfoldable pub destroy_db : L.Options → Bytes → M (Native E) (Result (Unit {0}))
  unfolding rocks_destroy_db from_ll
  destroy_db options name = do
    s ← utf8_name name
    status ← rocks_destroy_db options s
    from_ll E status

  unfoldable pub repair_db : L.Options → Bytes → M (Native E) (Result (Unit {0}))
  unfolding rocks_repair_db from_ll
  repair_db options name = do
    s ← utf8_name name
    status ← rocks_repair_db options s
    from_ll E status
