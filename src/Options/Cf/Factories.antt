-- ===== src/Options/Cf/Factories.antt =====
-- src/options.rs: the setters of `ColumnFamilyOptions` that take other options, with their glue in
-- rocks-sys/rocks/options.cc. Options that are taken by value are their raw pointer.
use rust_rocks.Common.{◌==◌, if◌then◌else◌}
use rust_rocks.Ffi.{Ptr, null, M, pure, ◌>>=◌, ◌>>◌, free}
use rust_rocks.Options.Struct.{
  block_based_factory, plain_factory, cuckoo_factory, universal_style, fifo_style, read_struct,
  set_member,
}
use rust_rocks.Options.Objects.{
  OptionsWorld, cf_kind, block_kind, plain_kind, cuckoo_kind, universal_kind, fifo_kind,
}
use rust_rocks.Options.Fields.{CfField}
use rust_rocks.Options.Cf.Object.{CfOptions}

unfoldable pub rocks_cfoptions_set_plain_table_factory : Ptr → Ptr → M OptionsWorld (Unit {0})
unfolding read_struct
rocks_cfoptions_set_plain_table_factory opt p = if p == null then pure tt else (do
  s ← read_struct plain_kind p
  set_member cf_kind opt CfField.table_factory (plain_factory s))

-- These table options have no `Drop`.
unfoldable pub table_factory_plain : CfOptions → Ptr → M OptionsWorld CfOptions
unfolding rocks_cfoptions_set_plain_table_factory
table_factory_plain self opt = do rocks_cfoptions_set_plain_table_factory self.raw opt; pure self

unfoldable pub rocks_cfoptions_set_block_based_table_factory : Ptr → Ptr → M OptionsWorld (Unit {0})
unfolding read_struct
rocks_cfoptions_set_block_based_table_factory opt p = if p == null then pure tt else (do
  s ← read_struct block_kind p
  set_member cf_kind opt CfField.table_factory (block_based_factory s))

unfoldable pub table_factory_block_based : CfOptions → Ptr → M OptionsWorld CfOptions
unfolding rocks_cfoptions_set_block_based_table_factory
table_factory_block_based self opt = do
  rocks_cfoptions_set_block_based_table_factory self.raw opt
  free opt
  pure self

unfoldable pub rocks_cfoptions_set_cuckoo_table_factory : Ptr → Ptr → M OptionsWorld (Unit {0})
unfolding read_struct
rocks_cfoptions_set_cuckoo_table_factory opt p = if p == null then pure tt else (do
  s ← read_struct cuckoo_kind p
  set_member cf_kind opt CfField.table_factory (cuckoo_factory s))

-- These table options have no `Drop`.
unfoldable pub table_factory_cuckoo : CfOptions → Ptr → M OptionsWorld CfOptions
unfolding rocks_cfoptions_set_cuckoo_table_factory
table_factory_cuckoo self opt = do rocks_cfoptions_set_cuckoo_table_factory self.raw opt; pure self

unfoldable pub rocks_cfoptions_set_universal_compaction_options :
    Ptr → Ptr → M OptionsWorld (Unit {0})
unfolding read_struct
rocks_cfoptions_set_universal_compaction_options opt p = do
  s ← read_struct universal_kind p
  set_member cf_kind opt CfField.compaction_options_universal (universal_style s)

unfoldable pub compaction_options_universal : CfOptions → Ptr → M OptionsWorld CfOptions
unfolding rocks_cfoptions_set_universal_compaction_options
compaction_options_universal self opt = do
  rocks_cfoptions_set_universal_compaction_options self.raw opt
  free opt
  pure self

unfoldable pub rocks_cfoptions_set_fifo_compaction_options : Ptr → Ptr → M OptionsWorld (Unit {0})
unfolding read_struct
rocks_cfoptions_set_fifo_compaction_options opt p = do
  s ← read_struct fifo_kind p
  set_member cf_kind opt CfField.compaction_options_fifo (fifo_style s)

unfoldable pub compaction_options_fifo : CfOptions → Ptr → M OptionsWorld CfOptions
unfolding rocks_cfoptions_set_fifo_compaction_options
compaction_options_fifo self opt = do
  rocks_cfoptions_set_fifo_compaction_options self.raw opt
  free opt
  pure self
