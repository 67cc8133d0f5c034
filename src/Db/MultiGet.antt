-- ===== src/Db/MultiGet.antt =====
-- `multi_get` and `multi_get_cf` of `DBRef` in src/db.rs, `multi_get` of `ColumnFamily`, `CVec` of
-- src/slice.rs, and the glue of rocks-sys/rocks/db.cc. The arrays that the glue fills are one list
-- of slots: the value's pointer, its length, and the status.
pub mod Slots
pub mod Answers
use rust_rocks.Common.{
  ℕ, Bool, Option, none, some, List, [], ◌∷◌, Bytes, ◌==◌, if◌then◌else◌, length, take, map,
}
use rust_rocks.Ffi.{Ptr, null, Outcome, done, panic, fault, M, pure, ◌>>=◌, ◌>>◌, alloc, load, free}
use rust_rocks.Ffi.Object.{Object, buffer}
use rust_rocks.Engine.{Engine}
use rust_rocks.Error.{Native, Result, map_ok, save_error, from_ll}
use rust_rocks.Db.Glue.{load_cf}
use rust_rocks.Db.Read.{ask}
use rust_rocks.Db.Family.{ColumnFamily}

-- `CVec<u8>`
pub record CVec : Type 0 where
  pub data_ptr : Ptr
  pub size : ℕ

abbrev pub Slot : Type 0
Slot = Ptr × ℕ × Ptr

module _ (E : Engine) where
  abbrev pub expect_buffer : Object E.Rep E.Cf E.Snap E.Batch → M (Native E) Bytes
  expect_buffer (buffer cap bs) w = done bs w
  expect_buffer _ w = fault

  -- `Deref for CVec`
  unfoldable pub deref : CVec → M (Native E) Bytes
  deref v = do o ← load v.data_ptr; bs ← expect_buffer o; pure (take v.size bs)

  -- `Drop for CVec`: `free`
  unfoldable pub drop_vec : CVec → M (Native E) (Unit {0})
  drop_vec v = if v.data_ptr == null then pure tt else free v.data_ptr

  -- `CopyString`; the allocation of no bytes also has an address of its own
  unfoldable pub copy_string : Bytes → M (Native E) Ptr
  copy_string str = alloc (buffer (length str) str)

  -- The second loop of the glue, for the statuses and values that the engine answered.
  unfoldable pub fill : List (E.Rep × Bytes) → M (Native E) (List Slot)
  unfolding save_error copy_string
  fill [] = pure []
  fill ((st, bs) ∷ xs) = do
    status ← save_error E st
    slot ←
        (if status == null
          then (copy_string bs >>= λ val. pure (val, length bs, status))
          else pure (null, 0, status))
    slots ← fill xs
    pure (slot ∷ slots)

  unfoldable pub rocks_db_multi_get : E.ReadOptions → List Bytes → M (Native E) (List Slot)
  unfolding fill
  rocks_db_multi_get o keys = do xs ← ask E (E.multi_get o keys); fill xs

  unfoldable pub load_each : List (Ptr × Bytes) → M (Native E) (List (E.Cf × Bytes))
  unfolding load_cf
  load_each [] = pure []
  load_each ((p, k) ∷ ks) = do c ← load_cf E p; cs ← load_each ks; pure ((c, k) ∷ cs)

  unfoldable pub rocks_db_multi_get_cf :
      E.ReadOptions → List (Ptr × Bytes) → M (Native E) (List Slot)
  unfolding fill load_each
  rocks_db_multi_get_cf o keys = do ks ← load_each keys; xs ← ask E (E.multi_get_cf o ks); fill xs

  -- The loop that makes the results.
  unfoldable pub results : List Slot → M (Native E) (List (Result CVec))
  unfolding from_ll
  results [] = pure []
  results ((val, len, status) ∷ slots) = do
    r ← from_ll E status
    rs ← results slots
    pure (map_ok (λ _. record { data_ptr = val; size = len }) r ∷ rs)

  unfoldable pub multi_get : E.ReadOptions → List Bytes → M (Native E) (List (Result CVec))
  unfolding rocks_db_multi_get results
  multi_get o keys = do slots ← rocks_db_multi_get o keys; results slots

  -- `c_cfs.push(column_families[i].raw())` for each key: a panic where there is no such index
  unfoldable pub pair_up : List Ptr → List Bytes → M (Native E) (List (Ptr × Bytes))
  pair_up cfs [] = pure []
  pair_up [] (k ∷ ks) = λ w. panic w
  pair_up (p ∷ cfs) (k ∷ ks) = do rest ← pair_up cfs ks; pure ((p, k) ∷ rest)

  unfoldable pub multi_get_cf :
      E.ReadOptions → List Ptr → List Bytes → M (Native E) (List (Result CVec))
  unfolding pair_up rocks_db_multi_get_cf results
  multi_get_cf o cfs keys = do
    ks ← pair_up cfs keys
    slots ← rocks_db_multi_get_cf o ks
    results slots

  -- `ColumnFamily::multi_get`
  unfoldable pub family_multi_get :
      ColumnFamily → E.ReadOptions → List Bytes → M (Native E) (List (Result CVec))
  unfolding rocks_db_multi_get_cf results
  family_multi_get cf o keys = do
    slots ← rocks_db_multi_get_cf o (map (λ k. (cf.handle.raw, k)) keys)
    results slots
