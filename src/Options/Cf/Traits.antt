-- ===== src/Options/Cf/Traits.antt =====
-- src/options.rs: the setters of `ColumnFamilyOptions` that take a Rust trait object, with their glue
-- in rocks-sys/rocks/options.cc. The number stands for the trait object, which is boxed; the native
-- object around the box is known by the address of the box, and the shared pointers that own it are counted there.
use rust_rocks.Common.{ℕ}
use rust_rocks.Ffi.{Ptr, M, pure, ◌>>=◌, ◌>>◌, alloc}
use rust_rocks.Options.Struct.{wrapped, read_struct, set_member, append_member, push_wrapped}
use rust_rocks.Options.Objects.{OptionsWorld, cf_kind, trait_object, make_shared}
use rust_rocks.Options.Fields.{CfField}
use rust_rocks.Options.Cf.Object.{CfOptions}

unfoldable pub rocks_cfoptions_set_comparator_by_trait : Ptr → Ptr → M OptionsWorld (Unit {0})
rocks_cfoptions_set_comparator_by_trait opt obj =
    set_member cf_kind opt CfField.comparator (wrapped obj)

unfoldable pub comparator : CfOptions → ℕ → M OptionsWorld CfOptions
unfolding rocks_cfoptions_set_comparator_by_trait
comparator self val = do
  obj ← alloc (trait_object val)
  rocks_cfoptions_set_comparator_by_trait self.raw obj
  pure self

unfoldable pub rocks_cfoptions_set_merge_operator_by_merge_op_trait :
    Ptr → Ptr → M OptionsWorld (Unit {0})
unfolding make_shared
rocks_cfoptions_set_merge_operator_by_merge_op_trait opt obj = do
  make_shared obj
  set_member cf_kind opt CfField.merge_operator (wrapped obj)

unfoldable pub merge_operator : CfOptions → ℕ → M OptionsWorld CfOptions
unfolding rocks_cfoptions_set_merge_operator_by_merge_op_trait
merge_operator self val = do
  obj ← alloc (trait_object val)
  rocks_cfoptions_set_merge_operator_by_merge_op_trait self.raw obj
  pure self

unfoldable pub rocks_cfoptions_set_merge_operator_by_assoc_op_trait :
    Ptr → Ptr → M OptionsWorld (Unit {0})
unfolding make_shared
rocks_cfoptions_set_merge_operator_by_assoc_op_trait opt obj = do
  make_shared obj
  set_member cf_kind opt CfField.merge_operator (wrapped obj)

unfoldable pub associative_merge_operator : CfOptions → ℕ → M OptionsWorld CfOptions
unfolding rocks_cfoptions_set_merge_operator_by_assoc_op_trait
associative_merge_operator self val = do
  obj ← alloc (trait_object val)
  rocks_cfoptions_set_merge_operator_by_assoc_op_trait self.raw obj
  pure self

unfoldable pub rocks_cfoptions_set_compaction_filter_by_trait :
    Ptr → Ptr → M OptionsWorld (Unit {0})
rocks_cfoptions_set_compaction_filter_by_trait opt obj =
    set_member cf_kind opt CfField.compaction_filter (wrapped obj)

unfoldable pub compaction_filter : CfOptions → ℕ → M OptionsWorld CfOptions
unfolding rocks_cfoptions_set_compaction_filter_by_trait
compaction_filter self val = do
  obj ← alloc (trait_object val)
  rocks_cfoptions_set_compaction_filter_by_trait self.raw obj
  pure self

unfoldable pub rocks_cfoptions_set_prefix_extractor_by_trait : Ptr → Ptr → M OptionsWorld (Unit {0})
unfolding make_shared
rocks_cfoptions_set_prefix_extractor_by_trait opt obj = do
  make_shared obj
  set_member cf_kind opt CfField.prefix_extractor (wrapped obj)

unfoldable pub prefix_extractor : CfOptions → ℕ → M OptionsWorld CfOptions
unfolding rocks_cfoptions_set_prefix_extractor_by_trait
prefix_extractor self val = do
  obj ← alloc (trait_object val)
  rocks_cfoptions_set_prefix_extractor_by_trait self.raw obj
  pure self

unfoldable pub rocks_cfoptions_set_memtable_insert_with_hint_prefix_extractor_by_trait :
    Ptr → Ptr → M OptionsWorld (Unit {0})
unfolding make_shared
rocks_cfoptions_set_memtable_insert_with_hint_prefix_extractor_by_trait opt obj = do
  make_shared obj
  set_member cf_kind opt CfField.memtable_insert_with_hint_prefix_extractor (wrapped obj)

unfoldable pub memtable_insert_with_hint_prefix_extractor : CfOptions → ℕ → M OptionsWorld CfOptions
unfolding rocks_cfoptions_set_memtable_insert_with_hint_prefix_extractor_by_trait
memtable_insert_with_hint_prefix_extractor self val = do
  obj ← alloc (trait_object val)
  rocks_cfoptions_set_memtable_insert_with_hint_prefix_extractor_by_trait self.raw obj
  pure self

unfoldable pub rocks_cfoptions_add_table_properties_collector_factories_by_trait :
    Ptr → Ptr → M OptionsWorld (Unit {0})
unfolding read_struct make_shared
rocks_cfoptions_add_table_properties_collector_factories_by_trait opt obj = do
  make_shared obj
  s ← read_struct cf_kind opt
  append_member cf_kind opt CfField.table_properties_collector_factories
      (push_wrapped (s CfField.table_properties_collector_factories) obj)

unfoldable pub table_properties_collector_factory : CfOptions → ℕ → M OptionsWorld CfOptions
unfolding rocks_cfoptions_add_table_properties_collector_factories_by_trait
table_properties_collector_factory self val = do
  obj ← alloc (trait_object val)
  rocks_cfoptions_add_table_properties_collector_factories_by_trait self.raw obj
  pure self
