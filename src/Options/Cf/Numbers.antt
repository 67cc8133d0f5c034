-- ===== src/Options/Cf/Numbers.antt =====
-- src/options.rs: the setters of `ColumnFamilyOptions` that take numbers and enums.
use rust_rocks.Common.{ℕ}
use rust_rocks.Ffi.{M, pure, ◌>>◌}
use rust_rocks.Options.Objects.{OptionsWorld}
use rust_rocks.Options.Enums.{
  CompressionType, compression_type_to_int, CompactionStyle, compaction_style_to_int, CompactionPri,
  compaction_pri_to_int,
}
use rust_rocks.Options.Cf.Object.{CfOptions}
use rust_rocks.Options.Cf.NumberGlue

unfoldable pub write_buffer_size : CfOptions → ℕ → M OptionsWorld CfOptions
unfolding NumberGlue.rocks_cfoptions_set_write_buffer_size
write_buffer_size self val = do
  NumberGlue.rocks_cfoptions_set_write_buffer_size self.raw val
  pure self

unfoldable pub compression : CfOptions → CompressionType → M OptionsWorld CfOptions
unfolding NumberGlue.rocks_cfoptions_set_compression compression_type_to_int
compression self val = do
  NumberGlue.rocks_cfoptions_set_compression self.raw (compression_type_to_int val)
  pure self

unfoldable pub bottommost_compression : CfOptions → CompressionType → M OptionsWorld CfOptions
unfolding NumberGlue.rocks_cfoptions_set_bottommost_compression compression_type_to_int
bottommost_compression self val = do
  NumberGlue.rocks_cfoptions_set_bottommost_compression self.raw (compression_type_to_int val)
  pure self

unfoldable pub level0_file_num_compaction_trigger : CfOptions → ℕ → M OptionsWorld CfOptions
unfolding NumberGlue.rocks_cfoptions_set_level0_file_num_compaction_trigger
level0_file_num_compaction_trigger self val = do
  NumberGlue.rocks_cfoptions_set_level0_file_num_compaction_trigger self.raw val
  pure self

unfoldable pub max_bytes_for_level_base : CfOptions → ℕ → M OptionsWorld CfOptions
unfolding NumberGlue.rocks_cfoptions_set_max_bytes_for_level_base
max_bytes_for_level_base self val = do
  NumberGlue.rocks_cfoptions_set_max_bytes_for_level_base self.raw val
  pure self

unfoldable pub max_write_buffer_number : CfOptions → ℕ → M OptionsWorld CfOptions
unfolding NumberGlue.rocks_cfoptions_set_max_write_buffer_number
max_write_buffer_number self val = do
  NumberGlue.rocks_cfoptions_set_max_write_buffer_number self.raw val
  pure self

unfoldable pub min_write_buffer_number_to_merge : CfOptions → ℕ → M OptionsWorld CfOptions
unfolding NumberGlue.rocks_cfoptions_set_min_write_buffer_number_to_merge
min_write_buffer_number_to_merge self val = do
  NumberGlue.rocks_cfoptions_set_min_write_buffer_number_to_merge self.raw val
  pure self

unfoldable pub max_write_buffer_number_to_maintain : CfOptions → ℕ → M OptionsWorld CfOptions
unfolding NumberGlue.rocks_cfoptions_set_max_write_buffer_number_to_maintain
max_write_buffer_number_to_maintain self val = do
  NumberGlue.rocks_cfoptions_set_max_write_buffer_number_to_maintain self.raw val
  pure self

unfoldable pub inplace_update_num_locks : CfOptions → ℕ → M OptionsWorld CfOptions
unfolding NumberGlue.rocks_cfoptions_set_inplace_update_num_locks
inplace_update_num_locks self val = do
  NumberGlue.rocks_cfoptions_set_inplace_update_num_locks self.raw val
  pure self

unfoldable pub memtable_prefix_bloom_size_ratio : CfOptions → ℕ → M OptionsWorld CfOptions
unfolding NumberGlue.rocks_cfoptions_set_memtable_prefix_bloom_size_ratio
memtable_prefix_bloom_size_ratio self val = do
  NumberGlue.rocks_cfoptions_set_memtable_prefix_bloom_size_ratio self.raw val
  pure self

unfoldable pub memtable_huge_page_size : CfOptions → ℕ → M OptionsWorld CfOptions
unfolding NumberGlue.rocks_cfoptions_set_memtable_huge_page_size
memtable_huge_page_size self val = do
  NumberGlue.rocks_cfoptions_set_memtable_huge_page_size self.raw val
  pure self

unfoldable pub bloom_locality : CfOptions → ℕ → M OptionsWorld CfOptions
unfolding NumberGlue.rocks_cfoptions_set_bloom_locality
bloom_locality self val = do NumberGlue.rocks_cfoptions_set_bloom_locality self.raw val; pure self

unfoldable pub arena_block_size : CfOptions → ℕ → M OptionsWorld CfOptions
unfolding NumberGlue.rocks_cfoptions_set_arena_block_size
arena_block_size self val = do
  NumberGlue.rocks_cfoptions_set_arena_block_size self.raw val
  pure self

unfoldable pub num_levels : CfOptions → ℕ → M OptionsWorld CfOptions
unfolding NumberGlue.rocks_cfoptions_set_num_levels
num_levels self val = do NumberGlue.rocks_cfoptions_set_num_levels self.raw val; pure self

unfoldable pub level0_slowdown_writes_trigger : CfOptions → ℕ → M OptionsWorld CfOptions
unfolding NumberGlue.rocks_cfoptions_set_level0_slowdown_writes_trigger
level0_slowdown_writes_trigger self val = do
  NumberGlue.rocks_cfoptions_set_level0_slowdown_writes_trigger self.raw val
  pure self

unfoldable pub level0_stop_writes_trigger : CfOptions → ℕ → M OptionsWorld CfOptions
unfolding NumberGlue.rocks_cfoptions_set_level0_stop_writes_trigger
level0_stop_writes_trigger self val = do
  NumberGlue.rocks_cfoptions_set_level0_stop_writes_trigger self.raw val
  pure self

unfoldable pub target_file_size_base : CfOptions → ℕ → M OptionsWorld CfOptions
unfolding NumberGlue.rocks_cfoptions_set_target_file_size_base
target_file_size_base self val = do
  NumberGlue.rocks_cfoptions_set_target_file_size_base self.raw val
  pure self

unfoldable pub target_file_size_multiplier : CfOptions → ℕ → M OptionsWorld CfOptions
unfolding NumberGlue.rocks_cfoptions_set_target_file_size_multiplier
target_file_size_multiplier self val = do
  NumberGlue.rocks_cfoptions_set_target_file_size_multiplier self.raw val
  pure self

unfoldable pub max_bytes_for_level_multiplier : CfOptions → ℕ → M OptionsWorld CfOptions
unfolding NumberGlue.rocks_cfoptions_set_max_bytes_for_level_multiplier
max_bytes_for_level_multiplier self val = do
  NumberGlue.rocks_cfoptions_set_max_bytes_for_level_multiplier self.raw val
  pure self

unfoldable pub max_compaction_bytes : CfOptions → ℕ → M OptionsWorld CfOptions
unfolding NumberGlue.rocks_cfoptions_set_max_compaction_bytes
max_compaction_bytes self val = do
  NumberGlue.rocks_cfoptions_set_max_compaction_bytes self.raw val
  pure self

unfoldable pub soft_pending_compaction_bytes_limit : CfOptions → ℕ → M OptionsWorld CfOptions
unfolding NumberGlue.rocks_cfoptions_set_soft_pending_compaction_bytes_limit
soft_pending_compaction_bytes_limit self val = do
  NumberGlue.rocks_cfoptions_set_soft_pending_compaction_bytes_limit self.raw val
  pure self

unfoldable pub hard_pending_compaction_bytes_limit : CfOptions → ℕ → M OptionsWorld CfOptions
unfolding NumberGlue.rocks_cfoptions_set_hard_pending_compaction_bytes_limit
hard_pending_compaction_bytes_limit self val = do
  NumberGlue.rocks_cfoptions_set_hard_pending_compaction_bytes_limit self.raw val
  pure self

unfoldable pub compaction_style : CfOptions → CompactionStyle → M OptionsWorld CfOptions
unfolding NumberGlue.rocks_cfoptions_set_compaction_style compaction_style_to_int
compaction_style self val = do
  NumberGlue.rocks_cfoptions_set_compaction_style self.raw (compaction_style_to_int val)
  pure self

unfoldable pub compaction_pri : CfOptions → CompactionPri → M OptionsWorld CfOptions
unfolding NumberGlue.rocks_cfoptions_set_compaction_pri compaction_pri_to_int
compaction_pri self val = do
  NumberGlue.rocks_cfoptions_set_compaction_pri self.raw (compaction_pri_to_int val)
  pure self

unfoldable pub max_sequential_skip_in_iterations : CfOptions → ℕ → M OptionsWorld CfOptions
unfolding NumberGlue.rocks_cfoptions_set_max_sequential_skip_in_iterations
max_sequential_skip_in_iterations self val = do
  NumberGlue.rocks_cfoptions_set_max_sequential_skip_in_iterations self.raw val
  pure self

unfoldable pub max_successive_merges : CfOptions → ℕ → M OptionsWorld CfOptions
unfolding NumberGlue.rocks_cfoptions_set_max_successive_merges
max_successive_merges self val = do
  NumberGlue.rocks_cfoptions_set_max_successive_merges self.raw val
  pure self
