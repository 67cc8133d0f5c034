-- ===== src/Db/Read.antt =====
-- The reads of `DBRef` in src/db.rs with the glue of rocks-sys/rocks/db.cc, `PinnableSlice` of
-- src/slice.rs, and `rust_vec_u8_assign` and `rust_string_assign` of src/lib.rs.
pub mod Lookup
pub mod Probe
use rust_rocks.Common.{
  ℕ, Bool, true, false, Option, none, some, [], Bytes, ◌==◌, if◌then◌else◌, not, to_u8, take,
  length, ◌&&◌,
}
use rust_rocks.Ffi.{Ptr, null, Outcome, done, fault, M, pure, ◌>>=◌, ◌>>◌, alloc, load, store, free}
use rust_rocks.Ffi.Object.{Object, pinnable}
use rust_rocks.Engine.{Engine}
use rust_rocks.Error.{Result, Native, save_error, from_ll}
use rust_rocks.Db.Glue.{load_cf}

pub record PinnableSlice : Type 0 where
  pub raw : Ptr

-- The two lines `reserve` and `copy`, and `set_len`: the first `len` bytes at `p`.
unfoldable pub rust_vec_u8_assign : Bytes → Bytes → ℕ → Bytes
rust_vec_u8_assign v p len = take len p

unfoldable pub rust_string_assign : Bytes → Bytes → ℕ → Bytes
rust_string_assign s p len = take len p

module _ (E : Engine) where
  -- A read of the database, which leaves it as it is.
  abbrev pub ask : {A : Type 0} → (E.Db → A) → M (Native E) A
  ask f w = done (f w.state) w

  unfoldable pub rocks_pinnable_slice_create : M (Native E) Ptr
  rocks_pinnable_slice_create = alloc (pinnable [])

  -- `delete s`
  unfoldable pub rocks_pinnable_slice_destroy : Ptr → M (Native E) (Unit {0})
  rocks_pinnable_slice_destroy p = if p == null then pure tt else free p

  abbrev pub expect_pinnable : Object E.Rep E.Cf E.Snap E.Batch → M (Native E) Bytes
  expect_pinnable (pinnable bs) w = done bs w
  expect_pinnable _ w = fault

  -- `PinnableSlice::new`
  unfoldable pub new : M (Native E) PinnableSlice
  unfolding rocks_pinnable_slice_create
  new = do p ← rocks_pinnable_slice_create; pure (record { raw = p })

  -- `Deref for PinnableSlice`: the bytes that data and size delimit
  unfoldable pub deref : PinnableSlice → M (Native E) Bytes
  deref s = load s.raw >>= expect_pinnable

  -- `Drop for PinnableSlice`
  unfoldable pub drop_slice : PinnableSlice → M (Native E) (Unit {0})
  unfolding rocks_pinnable_slice_destroy
  drop_slice s = rocks_pinnable_slice_destroy s.raw

  unfoldable pub rocks_db_get_pinnable : E.ReadOptions → Bytes → Ptr → M (Native E) Ptr
  unfolding save_error
  rocks_db_get_pinnable o key value = do
    c ← ask E.default_column_family
    (st, bs) ← ask (E.get o c key)
    store value (pinnable bs)
    save_error E st

  unfoldable pub rocks_db_get_cf_pinnable : E.ReadOptions → Ptr → Bytes → Ptr → M (Native E) Ptr
  unfolding save_error load_cf
  rocks_db_get_cf_pinnable o cf key value = do
    c ← load_cf E cf
    (st, bs) ← ask (E.get o c key)
    store value (pinnable bs)
    save_error E st

  -- `result.map(|_| pinnable_val)`: the slice goes into the result, or is dropped with the closure.
  unfoldable pub map_slice : PinnableSlice → Result (Unit {0}) → M (Native E) (Result PinnableSlice)
  unfolding drop_slice
  map_slice s (Result.ok u) = pure (Result.ok s)
  map_slice s (Result.err e) = drop_slice s >> pure (Result.err e)

  unfoldable pub get : E.ReadOptions → Bytes → M (Native E) (Result PinnableSlice)
  unfolding new rocks_db_get_pinnable from_ll map_slice
  get o key = do
    pinnable_val ← new
    status ← rocks_db_get_pinnable o key pinnable_val.raw
    r ← from_ll E status
    map_slice pinnable_val r

  unfoldable pub get_cf : E.ReadOptions → Ptr → Bytes → M (Native E) (Result PinnableSlice)
  unfolding new rocks_db_get_cf_pinnable from_ll map_slice
  get_cf o cf key = do
    pinnable_val ← new
    status ← rocks_db_get_cf_pinnable o cf key pinnable_val.raw
    r ← from_ll E status
    map_slice pinnable_val r

  -- `rust_vec_u8_assign(value, val.data(), val.size())`, where `value` is not null
  abbrev pub assign_value : Bytes → Option Bytes → Option Bytes
  unfolding rust_vec_u8_assign
  assign_value val none = none
  assign_value val (some v) = some (rust_vec_u8_assign v val (length val))

  -- What the glue returns, and what it has written to `*value` and `*value_found`. The callers give
  -- both pointers or none: `none` stands for two null pointers.
  unfoldable pub rocks_db_key_may_exist :
      E.ReadOptions → Bytes → Option Bytes → M (Native E) (ℕ × Option Bytes × ℕ)
  rocks_db_key_may_exist o key value = do
    (has_value, found, val) ← ask (E.key_may_exist o key)
    pure (to_u8 has_value, (if has_value then assign_value val value else value), to_u8 found)

  -- The answer of the call with `nullptr` for the value.
  abbrev pub without_value : Option Bool → M (Native E) (ℕ × Option Bytes × ℕ)
  without_value none w = fault
  without_value (some has_value) w = done (to_u8 has_value, none, 0) w

  unfoldable pub rocks_db_key_may_exist_cf :
      E.ReadOptions → Ptr → Bytes → Option Bytes → M (Native E) (ℕ × Option Bytes × ℕ)
  unfolding load_cf
  rocks_db_key_may_exist_cf o cf key (some v) = do
    c ← load_cf E cf
    (has_value, found, val) ← ask (E.key_may_exist_cf o c key)
    pure (to_u8 has_value, (if has_value then assign_value val (some v) else some v), to_u8 found)
  rocks_db_key_may_exist_cf o cf key none = do
    c ← load_cf E cf
    r ← ask (E.key_may_exist_cf_null o c key)
    without_value r

  unfoldable pub key_may_exist : E.ReadOptions → Bytes → M (Native E) Bool
  unfolding rocks_db_key_may_exist
  key_may_exist o key = do (ret, _, _) ← rocks_db_key_may_exist o key none; pure (not (ret == 0))

  -- The three results of `key_may_get` from what the glue gave back.
  abbrev pub may_get : ℕ → Option Bytes → ℕ → Bool × Option Bytes
  may_get ret value found =
      if ret == 0 then (false, none) else if found == 0 then (true, none) else (true, value)

  unfoldable pub key_may_get : E.ReadOptions → Bytes → M (Native E) (Bool × Option Bytes)
  unfolding rocks_db_key_may_exist
  key_may_get o key = do
    (ret, value, found) ← rocks_db_key_may_exist o key (some [])
    pure (may_get ret value found)

  unfoldable pub key_may_exist_cf : E.ReadOptions → Ptr → Bytes → M (Native E) Bool
  unfolding rocks_db_key_may_exist_cf
  key_may_exist_cf o cf key = do
    (ret, _, _) ← rocks_db_key_may_exist_cf o cf key none
    pure (not (ret == 0))

  unfoldable pub key_may_get_cf : E.ReadOptions → Ptr → Bytes → M (Native E) (Bool × Option Bytes)
  unfolding rocks_db_key_may_exist_cf
  key_may_get_cf o cf key = do
    (ret, value, found) ← rocks_db_key_may_exist_cf o cf key (some [])
    pure (may_get ret value found)
