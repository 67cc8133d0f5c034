-- ===== src/Options/Whole.antt =====
-- `Options` of src/options.rs, which holds both database and column family options, with the glue
-- of rocks-sys/rocks/options.cc that converts between the three.
pub mod Mapped
use rust_rocks.Common.{Option, none, some}
use rust_rocks.Ffi.{Ptr, done, fault, M, pure, ◌>>=◌, ◌>>◌, alloc, load, store, free}
use rust_rocks.Options.Struct.{Settings, read_struct, release_all}
use rust_rocks.Options.Fields.{DbField, CfField}
use rust_rocks.Options.Objects.{
  OptionsObject, OptionsWorld, db_kind, cf_kind, dboptions, cfoptions, options, share_all, db_boxes,
  cf_boxes,
}
use rust_rocks.Options.Db.Object as DbObject
use rust_rocks.Options.Db.Object.{DbOptions}
use rust_rocks.Options.Cf.Object as CfObject
use rust_rocks.Options.Cf.Object.{CfOptions}

pub record Options : Type 0 where
  pub raw : Ptr

abbrev pub expect_options : OptionsObject → M OptionsWorld (Settings DbField × Settings CfField)
expect_options (options d c) w = done (d, c) w
expect_options _ w = fault

unfoldable pub rocks_options_create : Settings DbField → Settings CfField → M OptionsWorld Ptr
rocks_options_create d c = alloc (options d c)

unfoldable pub rocks_options_destroy : Ptr → M OptionsWorld (Unit {0})
rocks_options_destroy p = do
  o ← load p
  r ← expect_options o
  free p
  release_all db_kind (db_boxes r.0)
  release_all cf_kind (cf_boxes r.1)

unfoldable pub rocks_options_create_from_db_cf_options : Ptr → Ptr → M OptionsWorld Ptr
unfolding read_struct
rocks_options_create_from_db_cf_options dbopt cfopt = do
  d ← read_struct db_kind dbopt
  c ← read_struct cf_kind cfopt
  share_all (db_boxes d)
  share_all (cf_boxes c)
  alloc (options d c)

unfoldable pub rocks_dboptions_create_from_options : Ptr → M OptionsWorld Ptr
rocks_dboptions_create_from_options p = do
  o ← load p
  r ← expect_options o
  share_all (db_boxes r.0)
  alloc (dboptions r.0)

unfoldable pub rocks_cfoptions_create_from_options : Ptr → M OptionsWorld Ptr
rocks_cfoptions_create_from_options p = do
  o ← load p
  r ← expect_options o
  share_all (cf_boxes r.1)
  alloc (cfoptions r.1)

unfoldable pub default : Settings DbField → Settings CfField → M OptionsWorld Options
unfolding rocks_options_create
default d c = do p ← rocks_options_create d c; pure (record { raw = p })

unfoldable pub drop_options : Options → M OptionsWorld (Unit {0})
unfolding rocks_options_destroy
drop_options self = rocks_options_destroy self.raw

-- `ColumnFamilyOptions::from_options`
unfoldable pub from_options : Options → M OptionsWorld CfOptions
unfolding rocks_cfoptions_create_from_options
from_options opt = do p ← rocks_cfoptions_create_from_options opt.raw; pure (record { raw = p })

-- `unwrap_or_default`
unfoldable pub db_or_default : Settings DbField → Option DbOptions → M OptionsWorld DbOptions
unfolding DbObject.default
db_or_default d none = DbObject.default d
db_or_default d (some o) = pure o

unfoldable pub cf_or_default : Settings CfField → Option CfOptions → M OptionsWorld CfOptions
unfolding CfObject.default
cf_or_default c none = CfObject.default c
cf_or_default c (some o) = pure o

-- Both options are taken by value and dropped at the end, the later variable first.
unfoldable pub new :
    Settings DbField
    → Settings CfField
    → Option DbOptions
    → Option CfOptions
    → M OptionsWorld Options
unfolding db_or_default cf_or_default rocks_options_create_from_db_cf_options DbObject.drop_options
    CfObject.drop_options
new d c dbopt cfopt = do
  db ← db_or_default d dbopt
  cf ← cf_or_default c cfopt
  p ← rocks_options_create_from_db_cf_options db.raw cf.raw
  CfObject.drop_options cf
  DbObject.drop_options db
  pure (record { raw = p })

-- The variables and then `self` are dropped at the end.
unfoldable pub map_db_options :
    Options → (DbOptions → M OptionsWorld DbOptions) → M OptionsWorld Options
unfolding rocks_dboptions_create_from_options rocks_cfoptions_create_from_options
    rocks_options_create_from_db_cf_options DbObject.drop_options CfObject.drop_options drop_options
map_db_options self f = do
  db ← rocks_dboptions_create_from_options self.raw
  new_dbopt ← f (record { raw = db })
  cf ← rocks_cfoptions_create_from_options self.raw
  p ← rocks_options_create_from_db_cf_options new_dbopt.raw cf
  CfObject.drop_options (record { raw = cf })
  DbObject.drop_options new_dbopt
  drop_options self
  pure (record { raw = p })

unfoldable pub map_cf_options :
    Options → (CfOptions → M OptionsWorld CfOptions) → M OptionsWorld Options
unfolding rocks_dboptions_create_from_options rocks_cfoptions_create_from_options
    rocks_options_create_from_db_cf_options DbObject.drop_options CfObject.drop_options drop_options
map_cf_options self f = do
  cf ← rocks_cfoptions_create_from_options self.raw
  new_cfopt ← f (record { raw = cf })
  db ← rocks_dboptions_create_from_options self.raw
  p ← rocks_options_create_from_db_cf_options db new_cfopt.raw
  DbObject.drop_options (record { raw = db })
  CfObject.drop_options new_cfopt
  drop_options self
  pure (record { raw = p })
