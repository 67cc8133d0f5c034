-- ===== src/Db/Dynamic.antt =====
-- Changing options of an open database: `set_options`, `set_options_cf` and `set_db_options` of
-- `DBRef`, and `set_options` of `ColumnFamily`, in src/db.rs, with the glue of
-- rocks-sys/rocks/db.cc. A `HashMap` is the list of its entries in the order in which it is walked;
-- its keys are distinct. Keys and values cross as four arrays of pointers and lengths, one list here.
pub mod Built
pub mod Default
use rust_rocks.Common.{
  ℕ, Bool, true, false, ◌&&◌, ◌≡◌, refl, List, [], ◌∷◌, Bytes, ◌==◌, if◌then◌else◌,
}
use rust_rocks.Ffi.{Ptr, M, pure, ◌>>=◌, ◌>>◌}
use rust_rocks.Engine.{Engine, Call}
use rust_rocks.Error.{Native, Result, from_ll}
use rust_rocks.Db.Glue.{load_cf, call_and_save}
use rust_rocks.Db.Family.{ColumnFamily, default_column_family, drop_family}

abbrev pub Settings : Type 0
Settings = List (Bytes × Bytes)

-- `operator==` of `std::string`
unfoldable pub same_bytes : Bytes → Bytes → Bool
same_bytes [] [] = true
same_bytes [] (b ∷ bs) = false
same_bytes (a ∷ as') [] = false
same_bytes (a ∷ as') (b ∷ bs) = (a == b) && same_bytes as' bs

-- `new_options[key] = val`, where a new key comes last
unfoldable pub assign_key : Bytes → Bytes → Settings → Settings
unfolding same_bytes
assign_key key val [] = (key, val) ∷ []
assign_key key val ((k, v) ∷ m) =
    let rest = assign_key key val m in if same_bytes k key then (k, val) ∷ m else (k, v) ∷ rest

-- The loop that builds `new_options`, from what it holds so far.
unfoldable pub build : Settings → Settings → Settings
unfolding assign_key
build m [] = m
build m ((key, val) ∷ kvs) = build (assign_key key val m) kvs

module _ (E : Engine) where
  unfoldable pub rocks_db_set_options_cf : Ptr → Settings → M (Native E) Ptr
  unfolding build load_cf call_and_save
  rocks_db_set_options_cf cf kvs = do
    c ← load_cf E cf
    call_and_save E (Call.set_options c (build [] kvs))

  unfoldable pub rocks_db_set_db_options : Settings → M (Native E) Ptr
  unfolding build call_and_save
  rocks_db_set_db_options kvs = call_and_save E (Call.set_db_options (build [] kvs))

  unfoldable pub set_options_cf : Ptr → Settings → M (Native E) (Result (Unit {0}))
  unfolding rocks_db_set_options_cf from_ll
  set_options_cf cf new_options = do
    status ← rocks_db_set_options_cf cf new_options
    from_ll E status

  -- The default column family is a temporary, which is dropped after the call.
  unfoldable pub set_options : Settings → M (Native E) (Result (Unit {0}))
  unfolding default_column_family set_options_cf drop_family
  set_options new_options = do
    cf ← default_column_family E
    r ← set_options_cf cf.handle.raw new_options
    drop_family E cf
    pure r

  unfoldable pub set_db_options : Settings → M (Native E) (Result (Unit {0}))
  unfolding rocks_db_set_db_options from_ll
  set_db_options new_options = do status ← rocks_db_set_db_options new_options; from_ll E status

  -- `ColumnFamily::set_options`
  unfoldable pub family_set_options : ColumnFamily → Settings → M (Native E) (Result (Unit {0}))
  unfolding rocks_db_set_options_cf from_ll
  family_set_options cf new_options = do
    status ← rocks_db_set_options_cf cf.handle.raw new_options
    from_ll E status
