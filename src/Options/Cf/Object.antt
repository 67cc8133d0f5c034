-- ===== src/Options/Cf/Object.antt =====
-- `ColumnFamilyOptions` of src/options.rs: making and dropping it, with the glue of rocks-sys/rocks/options.cc.
use rust_rocks.Ffi.{Ptr, M, pure, ◌>>=◌, ◌>>◌, alloc, free}
use rust_rocks.Options.Struct.{Settings, read_struct, release_all}
use rust_rocks.Options.Objects.{OptionsWorld, cfoptions, cf_kind, cf_boxes}
use rust_rocks.Options.Fields.{CfField}

pub record CfOptions : Type 0 where
  pub raw : Ptr

-- The argument is what RocksDB's own constructor makes.
unfoldable pub rocks_cfoptions_create : Settings CfField → M OptionsWorld Ptr
rocks_cfoptions_create defaults = alloc (cfoptions defaults)

-- `delete`, whose members give up what they share.
unfoldable pub rocks_cfoptions_destroy : Ptr → M OptionsWorld (Unit {0})
unfolding read_struct
rocks_cfoptions_destroy p = do s ← read_struct cf_kind p; free p; release_all cf_kind (cf_boxes s)

unfoldable pub default : Settings CfField → M OptionsWorld CfOptions
unfolding rocks_cfoptions_create
default defaults = do p ← rocks_cfoptions_create defaults; pure (record { raw = p })

unfoldable pub drop_options : CfOptions → M OptionsWorld (Unit {0})
unfolding rocks_cfoptions_destroy
drop_options self = rocks_cfoptions_destroy self.raw
