-- ===== src/Db/Opening/Columns.antt =====
-- `DB::open_with_column_families` of src/db.rs and the drop of the families that it returns, with
-- the glue of rocks-sys/rocks/db.cc.
use rust_rocks.Common.{
  ℕ, zero, suc, ◌%◌, ◌^◌, true, Option, none, some, List, [], ◌∷◌, Bytes, ◌==◌, if◌then◌else◌,
  length, take, map, ltb,
}
use rust_rocks.Ffi.{Ptr, null, Outcome, done, panic, fault, M, pure, ◌>>=◌, ◌>>◌, alloc, load}
use rust_rocks.Ffi.Object.{cf_handle, database}
use rust_rocks.Engine.{Engine}
use rust_rocks.Error.{Result, Native, save_error, from_ll}
use rust_rocks.Db.Family.{ColumnFamily, drop_family}
use rust_rocks.Db.Opening.{Opener, DbBox, c_name, map_run, raw, db_from_ll, expect_database}

-- A `ColumnFamily` with its reference to the `DBRef` of a `DB`.
pub record OpenedFamily : Type 0 where
  pub family : ColumnFamily
  pub db : Ptr

pub record ColumnFamilyDescriptor (CfOptions : Type 0) : Type 0 where
  pub name : Bytes
  pub options : Option CfOptions

module _ (E : Engine) (L : Opener E) where
  -- How often `for (int i = 0; i < n; i++)` runs for a `usize` that is cast to `c_int`.
  abbrev pub int_count : ℕ → ℕ
  int_count n = if ltb (n % 2 ^ 32) (2 ^ 31) then n % 2 ^ 32 else 0

  -- The loop that makes the handles. A write past the end of the array is a fault.
  unfoldable pub fill_handles : List E.Cf → List Ptr → M (Native E) (List Ptr)
  fill_handles [] hs = pure hs
  fill_handles (c ∷ cs) [] = λ w. fault
  fill_handles (c ∷ cs) (h ∷ hs) = do
    p ← alloc (cf_handle c)
    rest ← fill_handles cs hs
    pure (p ∷ rest)

  -- the `rocks_db_t`, `column_family_handles`, and the pointer written to `*status`
  unfoldable pub rocks_db_open_column_families :
      L.Options
      → Bytes
      → ℕ
      → List (Bytes × E.CfOptions)
      → List Ptr
      → M (Native E) (Ptr × List Ptr × Ptr)
  unfolding fill_handles save_error
  rocks_db_open_column_families o name num_column_families families column_family_handles w =
      let (st, rep, handles, d) =
        L.open_families o name (take (int_count num_column_families) families) w.state in
      (do
        status ← save_error E st
        if status == null
            then (do
              hs ← fill_handles handles column_family_handles
              result ← alloc (database rep)
              pure (result, hs, status))
            else pure (null, column_family_handles, status))
        (record w { state = d })

  -- The names and options that the loop over the descriptors collects.
  abbrev pub or_default : E.CfOptions → Option E.CfOptions → E.CfOptions
  or_default d none = d
  or_default d (some o) = o

  abbrev pub descriptor : E.CfOptions → ColumnFamilyDescriptor E.CfOptions → Bytes × E.CfOptions
  descriptor d cf = (cf.name, or_default d cf.options)

  abbrev pub nulls : ℕ → List Ptr
  nulls zero = []
  nulls (suc n) = null ∷ nulls n

  abbrev pub owned_family : Ptr → Ptr → OpenedFamily
  owned_family context p = record {
    family = record { handle = record { raw = p }; owned = true };
    db = context;
  }

  unfoldable pub open_with_column_families :
      L.Options
      → Bytes
      → List (ColumnFamilyDescriptor E.CfOptions)
      → M (Native E) (Result (DbBox × List OpenedFamily))
  unfolding rocks_db_open_column_families from_ll db_from_ll c_name
  open_with_column_families options name cfs = do
    dbname ← c_name E L name
    (db_ptr, cfhandles, status) ←
        rocks_db_open_column_families options dbname (length cfs)
          (map (descriptor (L.cf_options options)) cfs) (nulls (length cfs))
    r ← from_ll E status
    map_run E L
        (λ _. do db ← db_from_ll E L db_ptr; pure (db, map (owned_family db.context) cfhandles)) r

  -- `self.db.raw()`, and `db->rep` in the glue
  abbrev pub reach_database : Ptr → M (Native E) (Unit {0})
  unfolding raw
  reach_database db = do p ← raw E L db; o ← load p; expect_database E L o; pure tt

  -- `Drop for ColumnFamily`, which goes through its reference if it owns the handle
  unfoldable pub drop_opened : OpenedFamily → M (Native E) (Unit {0})
  unfolding raw drop_family
  drop_opened f = do if f.family.owned then reach_database f.db else pure tt; drop_family E f.family

  -- The drop of a vector: also while a panic unwinds, the rest is dropped.
  abbrev pub drop_rest :
      M (Native E) (Unit {0}) → Outcome (Native E) (Unit {0}) → Outcome (Native E) (Unit {0})
  drop_rest rest (done a w) = rest w
  drop_rest rest (panic w) = (rest >> λ v. panic v) w
  drop_rest rest fault = fault

  unfoldable pub drop_opened_all : List OpenedFamily → M (Native E) (Unit {0})
  unfolding drop_opened
  drop_opened_all [] = pure tt
  drop_opened_all (f ∷ fs) = λ w. drop_rest (drop_opened_all fs) (drop_opened f w)
