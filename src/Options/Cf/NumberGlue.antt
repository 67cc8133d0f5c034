-- ===== src/Options/Cf/NumberGlue.antt =====
-- rocks-sys/rocks/options.cc: the functions that assign numbers and enums to members of `ColumnFamilyOptions`.
use rust_rocks.Common.{ℕ}
use rust_rocks.Ffi.{Ptr, M}
use rust_rocks.Options.Struct.{number, set_member}
use rust_rocks.Options.Objects.{OptionsWorld, cf_kind}
use rust_rocks.Options.Fields.{CfField}

unfoldable pub rocks_cfoptions_set_write_buffer_size : Ptr → ℕ → M OptionsWorld (Unit {0})
rocks_cfoptions_set_write_buffer_size opt v =
    set_member cf_kind opt CfField.write_buffer_size (number v)

unfoldable pub rocks_cfoptions_set_compression : Ptr → ℕ → M OptionsWorld (Unit {0})
rocks_cfoptions_set_compression opt v = set_member cf_kind opt CfField.compression (number v)

unfoldable pub rocks_cfoptions_set_bottommost_compression : Ptr → ℕ → M OptionsWorld (Unit {0})
rocks_cfoptions_set_bottommost_compression opt v =
    set_member cf_kind opt CfField.bottommost_compression (number v)

unfoldable pub rocks_cfoptions_set_level0_file_num_compaction_trigger :
    Ptr → ℕ → M OptionsWorld (Unit {0})
rocks_cfoptions_set_level0_file_num_compaction_trigger opt v =
    set_member cf_kind opt CfField.level0_file_num_compaction_trigger (number v)

unfoldable pub rocks_cfoptions_set_max_bytes_for_level_base : Ptr → ℕ → M OptionsWorld (Unit {0})
rocks_cfoptions_set_max_bytes_for_level_base opt v =
    set_member cf_kind opt CfField.max_bytes_for_level_base (number v)

unfoldable pub rocks_cfoptions_set_max_write_buffer_number : Ptr → ℕ → M OptionsWorld (Unit {0})
rocks_cfoptions_set_max_write_buffer_number opt v =
    set_member cf_kind opt CfField.max_write_buffer_number (number v)

unfoldable pub rocks_cfoptions_set_min_write_buffer_number_to_merge :
    Ptr → ℕ → M OptionsWorld (Unit {0})
rocks_cfoptions_set_min_write_buffer_number_to_merge opt v =
    set_member cf_kind opt CfField.min_write_buffer_number_to_merge (number v)

unfoldable pub rocks_cfoptions_set_max_write_buffer_number_to_maintain :
    Ptr → ℕ → M OptionsWorld (Unit {0})
rocks_cfoptions_set_max_write_buffer_number_to_maintain opt v =
    set_member cf_kind opt CfField.max_write_buffer_number_to_maintain (number v)

unfoldable pub rocks_cfoptions_set_inplace_update_num_locks : Ptr → ℕ → M OptionsWorld (Unit {0})
rocks_cfoptions_set_inplace_update_num_locks opt v =
    set_member cf_kind opt CfField.inplace_update_num_locks (number v)

unfoldable pub rocks_cfoptions_set_memtable_prefix_bloom_size_ratio :
    Ptr → ℕ → M OptionsWorld (Unit {0})
rocks_cfoptions_set_memtable_prefix_bloom_size_ratio opt v =
    set_member cf_kind opt CfField.memtable_prefix_bloom_size_ratio (number v)

unfoldable pub rocks_cfoptions_set_memtable_huge_page_size : Ptr → ℕ → M OptionsWorld (Unit {0})
rocks_cfoptions_set_memtable_huge_page_size opt v =
    set_member cf_kind opt CfField.memtable_huge_page_size (number v)

unfoldable pub rocks_cfoptions_set_bloom_locality : Ptr → ℕ → M OptionsWorld (Unit {0})
rocks_cfoptions_set_bloom_locality opt v = set_member cf_kind opt CfField.bloom_locality (number v)

unfoldable pub rocks_cfoptions_set_arena_block_size : Ptr → ℕ → M OptionsWorld (Unit {0})
rocks_cfoptions_set_arena_block_size opt v =
    set_member cf_kind opt CfField.arena_block_size (number v)

unfoldable pub rocks_cfoptions_set_num_levels : Ptr → ℕ → M OptionsWorld (Unit {0})
rocks_cfoptions_set_num_levels opt v = set_member cf_kind opt CfField.num_levels (number v)

unfoldable pub rocks_cfoptions_set_level0_slowdown_writes_trigger :
    Ptr → ℕ → M OptionsWorld (Unit {0})
rocks_cfoptions_set_level0_slowdown_writes_trigger opt v =
    set_member cf_kind opt CfField.level0_slowdown_writes_trigger (number v)

unfoldable pub rocks_cfoptions_set_level0_stop_writes_trigger : Ptr → ℕ → M OptionsWorld (Unit {0})
rocks_cfoptions_set_level0_stop_writes_trigger opt v =
    set_member cf_kind opt CfField.level0_stop_writes_trigger (number v)

unfoldable pub rocks_cfoptions_set_target_file_size_base : Ptr → ℕ → M OptionsWorld (Unit {0})
rocks_cfoptions_set_target_file_size_base opt v =
    set_member cf_kind opt CfField.target_file_size_base (number v)

unfoldable pub rocks_cfoptions_set_target_file_size_multiplier : Ptr → ℕ → M OptionsWorld (Unit {0})
rocks_cfoptions_set_target_file_size_multiplier opt v =
    set_member cf_kind opt CfField.target_file_size_multiplier (number v)

unfoldable pub rocks_cfoptions_set_max_bytes_for_level_multiplier :
    Ptr → ℕ → M OptionsWorld (Unit {0})
rocks_cfoptions_set_max_bytes_for_level_multiplier opt v =
    set_member cf_kind opt CfField.max_bytes_for_level_multiplier (number v)

unfoldable pub rocks_cfoptions_set_max_compaction_bytes : Ptr → ℕ → M OptionsWorld (Unit {0})
rocks_cfoptions_set_max_compaction_bytes opt v =
    set_member cf_kind opt CfField.max_compaction_bytes (number v)

unfoldable pub rocks_cfoptions_set_soft_pending_compaction_bytes_limit :
    Ptr → ℕ → M OptionsWorld (Unit {0})
rocks_cfoptions_set_soft_pending_compaction_bytes_limit opt v =
    set_member cf_kind opt CfField.soft_pending_compaction_bytes_limit (number v)

unfoldable pub rocks_cfoptions_set_hard_pending_compaction_bytes_limit :
    Ptr → ℕ → M OptionsWorld (Unit {0})
rocks_cfoptions_set_hard_pending_compaction_bytes_limit opt v =
    set_member cf_kind opt CfField.hard_pending_compaction_bytes_limit (number v)

unfoldable pub rocks_cfoptions_set_compaction_style : Ptr → ℕ → M OptionsWorld (Unit {0})
rocks_cfoptions_set_compaction_style opt v =
    set_member cf_kind opt CfField.compaction_style (number v)

unfoldable pub rocks_cfoptions_set_compaction_pri : Ptr → ℕ → M OptionsWorld (Unit {0})
rocks_cfoptions_set_compaction_pri opt v = set_member cf_kind opt CfField.compaction_pri (number v)

unfoldable pub rocks_cfoptions_set_max_sequential_skip_in_iterations :
    Ptr → ℕ → M OptionsWorld (Unit {0})
rocks_cfoptions_set_max_sequential_skip_in_iterations opt v =
    set_member cf_kind opt CfField.max_sequential_skip_in_iterations (number v)

unfoldable pub rocks_cfoptions_set_max_successive_merges : Ptr → ℕ → M OptionsWorld (Unit {0})
rocks_cfoptions_set_max_successive_merges opt v =
    set_member cf_kind opt CfField.max_successive_merges (number v)
