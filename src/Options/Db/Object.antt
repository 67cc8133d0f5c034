-- ===== src/Options/Db/Object.antt =====
-- `DBOptions` of src/options.rs: making and dropping it, with the glue of rocks-sys/rocks/options.cc.
use rust_rocks.Ffi.{Ptr, M, pure, ◌>>=◌, ◌>>◌, alloc, free}
use rust_rocks.Options.Struct.{Settings, read_struct, release_all}
use rust_rocks.Options.Objects.{OptionsWorld, dboptions, db_kind, db_boxes}
use rust_rocks.Options.Fields.{DbField}

pub record DbOptions : Type 0 where
  pub raw : Ptr

-- The argument is what RocksDB's own constructor makes.
unfoldable pub rocks_dboptions_create : Settings DbField → M OptionsWorld Ptr
rocks_dboptions_create defaults = alloc (dboptions defaults)

-- `delete`, whose members give up what they share.
unfoldable pub rocks_dboptions_destroy : Ptr → M OptionsWorld (Unit {0})
unfolding read_struct
rocks_dboptions_destroy p = do s ← read_struct db_kind p; free p; release_all db_kind (db_boxes s)

unfoldable pub default : Settings DbField → M OptionsWorld DbOptions
unfolding rocks_dboptions_create
default defaults = do p ← rocks_dboptions_create defaults; pure (record { raw = p })

unfoldable pub drop_options : DbOptions → M OptionsWorld (Unit {0})
unfolding rocks_dboptions_destroy
drop_options self = rocks_dboptions_destroy self.raw
