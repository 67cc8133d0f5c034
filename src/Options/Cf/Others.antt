-- ===== src/Options/Cf/Others.antt =====
-- src/options.rs: the setters of `ColumnFamilyOptions` that take several numbers or have RocksDB make
-- something of them, with their glue in rocks-sys/rocks/options.cc.
use rust_rocks.Common.{ℕ, Bool, List, [], ◌∷◌, to_u8, of_u8, map, length, take, if◌then◌else◌}
use rust_rocks.Ffi.{Ptr, M, pure, ◌>>◌}
use rust_rocks.Options.Struct.{Maker, number, numbers, built, set_member}
use rust_rocks.Options.Objects.{OptionsWorld, cf_kind}
use rust_rocks.Options.Fields.{CfField}
use rust_rocks.Options.Enums.{CompressionType, compression_type_to_int}
use rust_rocks.Options.Cf.Object.{CfOptions}

unfoldable pub rocks_cfoptions_set_prefix_extractor_fixed_prefix :
    Ptr → ℕ → M OptionsWorld (Unit {0})
rocks_cfoptions_set_prefix_extractor_fixed_prefix opt len =
    set_member cf_kind opt CfField.prefix_extractor (built Maker.fixed_prefix_transform (len ∷ []))

unfoldable pub prefix_extractor_fixed : CfOptions → ℕ → M OptionsWorld CfOptions
unfolding rocks_cfoptions_set_prefix_extractor_fixed_prefix
prefix_extractor_fixed self len = do
  rocks_cfoptions_set_prefix_extractor_fixed_prefix self.raw len
  pure self

unfoldable pub rocks_cfoptions_set_prefix_extractor_capped_prefix :
    Ptr → ℕ → M OptionsWorld (Unit {0})
rocks_cfoptions_set_prefix_extractor_capped_prefix opt len =
    set_member cf_kind opt CfField.prefix_extractor (built Maker.capped_prefix_transform (len ∷ []))

unfoldable pub prefix_extractor_capped : CfOptions → ℕ → M OptionsWorld CfOptions
unfolding rocks_cfoptions_set_prefix_extractor_capped_prefix
prefix_extractor_capped self len = do
  rocks_cfoptions_set_prefix_extractor_capped_prefix self.raw len
  pure self

unfoldable pub rocks_cfoptions_set_prefix_extractor_noop : Ptr → M OptionsWorld (Unit {0})
rocks_cfoptions_set_prefix_extractor_noop opt =
    set_member cf_kind opt CfField.prefix_extractor (built Maker.noop_transform [])

unfoldable pub prefix_extractor_noop : CfOptions → M OptionsWorld CfOptions
unfolding rocks_cfoptions_set_prefix_extractor_noop
prefix_extractor_noop self = do rocks_cfoptions_set_prefix_extractor_noop self.raw; pure self

unfoldable pub rocks_cfoptions_set_memtable_insert_with_hint_prefix_extractor_fixed_prefix :
    Ptr → ℕ → M OptionsWorld (Unit {0})
rocks_cfoptions_set_memtable_insert_with_hint_prefix_extractor_fixed_prefix opt len =
    set_member cf_kind opt CfField.memtable_insert_with_hint_prefix_extractor
      (built Maker.fixed_prefix_transform (len ∷ []))

unfoldable pub memtable_insert_with_hint_prefix_extractor_fixed :
    CfOptions → ℕ → M OptionsWorld CfOptions
unfolding rocks_cfoptions_set_memtable_insert_with_hint_prefix_extractor_fixed_prefix
memtable_insert_with_hint_prefix_extractor_fixed self len = do
  rocks_cfoptions_set_memtable_insert_with_hint_prefix_extractor_fixed_prefix self.raw len
  pure self

unfoldable pub rocks_cfoptions_set_memtable_insert_with_hint_prefix_extractor_capped_prefix :
    Ptr → ℕ → M OptionsWorld (Unit {0})
rocks_cfoptions_set_memtable_insert_with_hint_prefix_extractor_capped_prefix opt len =
    set_member cf_kind opt CfField.memtable_insert_with_hint_prefix_extractor
      (built Maker.capped_prefix_transform (len ∷ []))

unfoldable pub memtable_insert_with_hint_prefix_extractor_capped :
    CfOptions → ℕ → M OptionsWorld CfOptions
unfolding rocks_cfoptions_set_memtable_insert_with_hint_prefix_extractor_capped_prefix
memtable_insert_with_hint_prefix_extractor_capped self len = do
  rocks_cfoptions_set_memtable_insert_with_hint_prefix_extractor_capped_prefix self.raw len
  pure self

unfoldable pub rocks_cfoptions_set_memtable_insert_with_hint_prefix_extractor_noop :
    Ptr → M OptionsWorld (Unit {0})
rocks_cfoptions_set_memtable_insert_with_hint_prefix_extractor_noop opt =
    set_member cf_kind opt CfField.memtable_insert_with_hint_prefix_extractor
      (built Maker.noop_transform [])

unfoldable pub memtable_insert_with_hint_prefix_extractor_noop :
    CfOptions → M OptionsWorld CfOptions
unfolding rocks_cfoptions_set_memtable_insert_with_hint_prefix_extractor_noop
memtable_insert_with_hint_prefix_extractor_noop self = do
  rocks_cfoptions_set_memtable_insert_with_hint_prefix_extractor_noop self.raw
  pure self

unfoldable pub rocks_cfoptions_set_memtable_vector_rep : Ptr → ℕ → M OptionsWorld (Unit {0})
rocks_cfoptions_set_memtable_vector_rep opt count =
    set_member cf_kind opt CfField.memtable_factory (built Maker.vector_rep (count ∷ []))

unfoldable pub memtable_factory_vector_rep : CfOptions → ℕ → M OptionsWorld CfOptions
unfolding rocks_cfoptions_set_memtable_vector_rep
memtable_factory_vector_rep self count = do
  rocks_cfoptions_set_memtable_vector_rep self.raw count
  pure self

unfoldable pub rocks_cfoptions_set_hash_skip_list_rep : Ptr → ℕ → ℕ → ℕ → M OptionsWorld (Unit {0})
rocks_cfoptions_set_hash_skip_list_rep opt bucket_count skiplist_height skiplist_branching_factor =
    set_member cf_kind opt CfField.memtable_factory (
      built Maker.hash_skip_list_rep
        (bucket_count ∷ skiplist_height ∷ skiplist_branching_factor ∷ []))

unfoldable pub memtable_factory_hash_skip_list_rep :
    CfOptions → ℕ → ℕ → ℕ → M OptionsWorld CfOptions
unfolding rocks_cfoptions_set_hash_skip_list_rep
memtable_factory_hash_skip_list_rep self bucket_count skiplist_height skiplist_branching_factor = do
  rocks_cfoptions_set_hash_skip_list_rep self.raw bucket_count skiplist_height
      skiplist_branching_factor
  pure self

unfoldable pub rocks_cfoptions_set_hash_link_list_rep : Ptr → ℕ → M OptionsWorld (Unit {0})
rocks_cfoptions_set_hash_link_list_rep opt bucket_count =
    set_member cf_kind opt CfField.memtable_factory
      (built Maker.hash_link_list_rep (bucket_count ∷ []))

unfoldable pub memtable_factory_hash_link_list_rep : CfOptions → ℕ → M OptionsWorld CfOptions
unfolding rocks_cfoptions_set_hash_link_list_rep
memtable_factory_hash_link_list_rep self bucket_count = do
  rocks_cfoptions_set_hash_link_list_rep self.raw bucket_count
  pure self

unfoldable pub rocks_cfoptions_set_hash_cuckoo_rep : Ptr → ℕ → ℕ → ℕ → M OptionsWorld (Unit {0})
rocks_cfoptions_set_hash_cuckoo_rep opt write_buffer_size average_data_size hash_function_count =
    set_member cf_kind opt CfField.memtable_factory (
      built Maker.hash_cuckoo_rep
        (write_buffer_size ∷ average_data_size ∷ hash_function_count ∷ []))

unfoldable pub memtable_factory_hash_cuckoo_rep : CfOptions → ℕ → ℕ → ℕ → M OptionsWorld CfOptions
unfolding rocks_cfoptions_set_hash_cuckoo_rep
memtable_factory_hash_cuckoo_rep self write_buffer_size average_data_size hash_function_count = do
  rocks_cfoptions_set_hash_cuckoo_rep self.raw write_buffer_size average_data_size
      hash_function_count
  pure self

unfoldable pub rocks_cfoptions_set_bitwise_comparator : Ptr → ℕ → M OptionsWorld (Unit {0})
rocks_cfoptions_set_bitwise_comparator opt reversed =
    if of_u8 reversed
    then set_member cf_kind opt CfField.comparator (built Maker.reverse_bytewise_comparator [])
    else set_member cf_kind opt CfField.comparator (built Maker.bytewise_comparator [])

unfoldable pub bitwise_comparator_reversed : CfOptions → Bool → M OptionsWorld CfOptions
unfolding rocks_cfoptions_set_bitwise_comparator
bitwise_comparator_reversed self val = do
  rocks_cfoptions_set_bitwise_comparator self.raw (to_u8 val)
  pure self

pub record CompressionOptions : Type 0 where
  pub window_bits : ℕ
  pub level : ℕ
  pub strategy : ℕ
  pub max_dict_bytes : ℕ

unfoldable pub rocks_cfoptions_set_compression_options :
    Ptr → ℕ → ℕ → ℕ → ℕ → M OptionsWorld (Unit {0})
rocks_cfoptions_set_compression_options opt w_bits level strategy max_dict_bytes = do
  set_member cf_kind opt CfField.window_bits (number w_bits)
  set_member cf_kind opt CfField.level (number level)
  set_member cf_kind opt CfField.strategy (number strategy)
  set_member cf_kind opt CfField.max_dict_bytes (number max_dict_bytes)

unfoldable pub compression_opts : CfOptions → CompressionOptions → M OptionsWorld CfOptions
unfolding rocks_cfoptions_set_compression_options
compression_opts self val = do
  rocks_cfoptions_set_compression_options self.raw val.window_bits val.level val.strategy
      val.max_dict_bytes
  pure self

-- The vector is resized to the number of levels and filled from the array.
unfoldable pub rocks_cfoptions_set_compression_per_level :
    Ptr → List ℕ → ℕ → M OptionsWorld (Unit {0})
rocks_cfoptions_set_compression_per_level opt level_values num_levels =
    set_member cf_kind opt CfField.compression_per_level (numbers (take num_levels level_values))

unfoldable pub compression_per_level : CfOptions → List CompressionType → M OptionsWorld CfOptions
unfolding rocks_cfoptions_set_compression_per_level
compression_per_level self val = do
  rocks_cfoptions_set_compression_per_level self.raw (map compression_type_to_int val) (length val)
  pure self

unfoldable pub rocks_cfoptions_set_max_bytes_for_level_multiplier_additional :
    Ptr → List ℕ → ℕ → M OptionsWorld (Unit {0})
rocks_cfoptions_set_max_bytes_for_level_multiplier_additional opt level_values num_levels =
    set_member cf_kind opt CfField.max_bytes_for_level_multiplier_additional
      (numbers (take num_levels level_values))

unfoldable pub max_bytes_for_level_multiplier_additional :
    CfOptions → List ℕ → M OptionsWorld CfOptions
unfolding rocks_cfoptions_set_max_bytes_for_level_multiplier_additional
max_bytes_for_level_multiplier_additional self val = do
  rocks_cfoptions_set_max_bytes_for_level_multiplier_additional self.raw val (length val)
  pure self
