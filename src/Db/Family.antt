-- ===== src/Db/Family.antt =====
-- Column families as objects: `ColumnFamilyHandle` and `ColumnFamily` of src/db.rs, which owns the
-- native handle if `create_column_family` made it, with the glue of rocks-sys/rocks/db.cc.
pub mod Lifecycle
pub mod Methods
pub mod Operations
use rust_rocks.Common.{ℕ, ◌≡◌, Bool, true, false, Option, [], ◌∷◌, Bytes, ◌==◌, if◌then◌else◌}
use rust_rocks.Ffi.{
  Ptr, null, World, Outcome, done, panic, fault, M, pure, ◌>>=◌, ◌>>◌, alloc, load, store, free,
  assert,
}
use rust_rocks.Ffi.Object.{Object, cf_handle, boxed}
use rust_rocks.Engine.{Engine, Call}
use rust_rocks.Error.{Result, Native, save_error, from_ll, drop_status, map_ok, drop_result}
use rust_rocks.Db.Glue.{engine_call, load_cf}

pub record ColumnFamilyHandle : Type 0 where
  pub raw : Ptr

pub record ColumnFamily : Type 0 where
  pub handle : ColumnFamilyHandle
  pub owned : Bool

-- `Result::is_ok`
unfoldable pub is_ok : {A : Type 0} → Result A → Bool
is_ok (Result.ok a) = true
is_ok (Result.err s) = false

-- Whether `CString::new` takes the bytes: it refuses those with a NUL.
unfoldable pub no_nul : Bytes → Bool
no_nul [] = true
no_nul (b ∷ bs) = if b == 0 then false else no_nul bs

module _ (E : Engine) where
  -- `DB::CreateColumnFamily`, which writes the handle's `rep`
  unfoldable pub create_in_engine : E.CfOptions → Bytes → Ptr → M (Native E) E.Rep
  create_in_engine o name handle w =
      let (s, c, d) = E.create_column_family o name w.state in
      (if E.is_ok s then store handle (cf_handle c) >> pure s else pure s) (record w { state = d })

  -- the handle, and the pointer written to `*status`
  unfoldable pub rocks_db_create_column_family : E.CfOptions → Bytes → M (Native E) (Ptr × Ptr)
  unfolding create_in_engine save_error
  rocks_db_create_column_family o name = do
    -- a handle whose `rep` is not set yet
    handle ← alloc (boxed 0)
    st ← create_in_engine o name handle
    status ← save_error E st
    if status == null then pure (handle, status) else free handle >> pure (null, status)

  unfoldable pub rocks_db_default_column_family : M (Native E) Ptr
  rocks_db_default_column_family w = alloc (cf_handle (E.default_column_family w.state)) w

  unfoldable pub rocks_db_destroy_column_family_handle : Ptr → M (Native E) Ptr
  unfolding load_cf save_error
  rocks_db_destroy_column_family_handle handle = do
    c ← load_cf E handle
    s ← engine_call E (Call.destroy_column_family_handle c)
    status ← save_error E s
    free handle
    pure status

  unfoldable pub rocks_column_family_handle_destroy : Ptr → M (Native E) (Unit {0})
  rocks_column_family_handle_destroy handle = if handle == null then pure tt else free handle

  unfoldable pub create_column_family : E.CfOptions → Bytes → M (Native E) (Result ColumnFamily)
  unfolding rocks_db_create_column_family from_ll no_nul
  create_column_family o name = do
    -- `CString::new(column_family_name).unwrap()`
    assert (no_nul name)
    (handle, status) ← rocks_db_create_column_family o name
    r ← from_ll E status
    pure (map_ok (λ _. record { handle = record { raw = handle }; owned = true }) r)

  unfoldable pub default_column_family : M (Native E) ColumnFamily
  unfolding rocks_db_default_column_family
  default_column_family = do
    raw ← rocks_db_default_column_family
    pure (record { handle = record { raw = raw }; owned = false })

  -- `Drop for ColumnFamilyHandle`
  unfoldable pub drop_handle : ColumnFamilyHandle → M (Native E) (Unit {0})
  unfolding rocks_column_family_handle_destroy
  drop_handle h = rocks_column_family_handle_destroy h.raw

  -- `Drop for ColumnFamily`, whose result is the object that is left. The temporary result of the
  -- asserted condition is dropped before the assertion panics.
  unfoldable pub drop_body : ColumnFamily → M (Native E) ColumnFamily
  unfolding rocks_db_destroy_column_family_handle from_ll is_ok drop_result
  drop_body cf =
      if cf.owned
      then (do
        status ← rocks_db_destroy_column_family_handle cf.handle.raw
        r ← from_ll E status
        drop_result E r
        assert (is_ok r)
        pure (record cf { handle = record { raw = null } }))
      else pure cf

  -- A value's fields are dropped after its `drop` returns, and also while its panic unwinds.
  abbrev pub drop_fields :
      ColumnFamily → Outcome (Native E) ColumnFamily → Outcome (Native E) (Unit {0})
  unfolding drop_handle
  drop_fields cf (done cf' w) = drop_handle cf'.handle w
  drop_fields cf (panic w) = (drop_handle cf.handle >> λ v. panic v) w
  drop_fields cf fault = fault

  -- the end of the life of a `ColumnFamily`
  unfoldable pub drop_family : ColumnFamily → M (Native E) (Unit {0})
  unfolding drop_body drop_handle
  drop_family cf w = drop_fields cf (drop_body cf w)
