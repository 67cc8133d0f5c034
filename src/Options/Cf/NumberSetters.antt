-- ===== src/Options/Cf/NumberSetters.antt =====
-- The setters of `ColumnFamilyOptions` that take numbers, as a family: the member that each assigns.
use rust_rocks.Common.{ℕ, ◌≡◌, refl}
use rust_rocks.Ffi.{done, M, and_then}
use rust_rocks.Options.Struct.{Value, set_member}
use rust_rocks.Options.Objects.{OptionsWorld, cf_kind}
use rust_rocks.Options.Fields.{CfField}
use rust_rocks.Options.Cf.Object.{CfOptions}
use rust_rocks.Options.Cf.Numbers

pub data CfNumber : Type 0 where
  write_buffer_size level0_file_num_compaction_trigger max_bytes_for_level_base : CfNumber
  max_write_buffer_number min_write_buffer_number_to_merge : CfNumber
  max_write_buffer_number_to_maintain inplace_update_num_locks : CfNumber
  memtable_prefix_bloom_size_ratio memtable_huge_page_size bloom_locality : CfNumber
  arena_block_size num_levels level0_slowdown_writes_trigger level0_stop_writes_trigger : CfNumber
  target_file_size_base target_file_size_multiplier max_bytes_for_level_multiplier : CfNumber
  max_compaction_bytes soft_pending_compaction_bytes_limit : CfNumber
  hard_pending_compaction_bytes_limit max_sequential_skip_in_iterations : CfNumber
  max_successive_merges : CfNumber

unfoldable pub number_member : CfNumber → CfField
number_member CfNumber.write_buffer_size = CfField.write_buffer_size
number_member CfNumber.level0_file_num_compaction_trigger =
    CfField.level0_file_num_compaction_trigger
number_member CfNumber.max_bytes_for_level_base = CfField.max_bytes_for_level_base
number_member CfNumber.max_write_buffer_number = CfField.max_write_buffer_number
number_member CfNumber.min_write_buffer_number_to_merge = CfField.min_write_buffer_number_to_merge
number_member CfNumber.max_write_buffer_number_to_maintain =
    CfField.max_write_buffer_number_to_maintain
number_member CfNumber.inplace_update_num_locks = CfField.inplace_update_num_locks
number_member CfNumber.memtable_prefix_bloom_size_ratio = CfField.memtable_prefix_bloom_size_ratio
number_member CfNumber.memtable_huge_page_size = CfField.memtable_huge_page_size
number_member CfNumber.bloom_locality = CfField.bloom_locality
number_member CfNumber.arena_block_size = CfField.arena_block_size
number_member CfNumber.num_levels = CfField.num_levels
number_member CfNumber.level0_slowdown_writes_trigger = CfField.level0_slowdown_writes_trigger
number_member CfNumber.level0_stop_writes_trigger = CfField.level0_stop_writes_trigger
number_member CfNumber.target_file_size_base = CfField.target_file_size_base
number_member CfNumber.target_file_size_multiplier = CfField.target_file_size_multiplier
number_member CfNumber.max_bytes_for_level_multiplier = CfField.max_bytes_for_level_multiplier
number_member CfNumber.max_compaction_bytes = CfField.max_compaction_bytes
number_member CfNumber.soft_pending_compaction_bytes_limit =
    CfField.soft_pending_compaction_bytes_limit
number_member CfNumber.hard_pending_compaction_bytes_limit =
    CfField.hard_pending_compaction_bytes_limit
number_member CfNumber.max_sequential_skip_in_iterations = CfField.max_sequential_skip_in_iterations
number_member CfNumber.max_successive_merges = CfField.max_successive_merges

unfoldable pub apply_number : CfNumber → CfOptions → ℕ → M OptionsWorld CfOptions
unfolding Numbers.write_buffer_size Numbers.level0_file_num_compaction_trigger
    Numbers.max_bytes_for_level_base Numbers.max_write_buffer_number
    Numbers.min_write_buffer_number_to_merge Numbers.max_write_buffer_number_to_maintain
    Numbers.inplace_update_num_locks Numbers.memtable_prefix_bloom_size_ratio
    Numbers.memtable_huge_page_size Numbers.bloom_locality Numbers.arena_block_size
    Numbers.num_levels Numbers.level0_slowdown_writes_trigger Numbers.level0_stop_writes_trigger
    Numbers.target_file_size_base Numbers.target_file_size_multiplier
    Numbers.max_bytes_for_level_multiplier Numbers.max_compaction_bytes
    Numbers.soft_pending_compaction_bytes_limit Numbers.hard_pending_compaction_bytes_limit
    Numbers.max_sequential_skip_in_iterations Numbers.max_successive_merges
apply_number CfNumber.write_buffer_size o v = Numbers.write_buffer_size o v
apply_number CfNumber.level0_file_num_compaction_trigger o v =
    Numbers.level0_file_num_compaction_trigger o v
apply_number CfNumber.max_bytes_for_level_base o v = Numbers.max_bytes_for_level_base o v
apply_number CfNumber.max_write_buffer_number o v = Numbers.max_write_buffer_number o v
apply_number CfNumber.min_write_buffer_number_to_merge o v =
    Numbers.min_write_buffer_number_to_merge o v
apply_number CfNumber.max_write_buffer_number_to_maintain o v =
    Numbers.max_write_buffer_number_to_maintain o v
apply_number CfNumber.inplace_update_num_locks o v = Numbers.inplace_update_num_locks o v
apply_number CfNumber.memtable_prefix_bloom_size_ratio o v =
    Numbers.memtable_prefix_bloom_size_ratio o v
apply_number CfNumber.memtable_huge_page_size o v = Numbers.memtable_huge_page_size o v
apply_number CfNumber.bloom_locality o v = Numbers.bloom_locality o v
apply_number CfNumber.arena_block_size o v = Numbers.arena_block_size o v
apply_number CfNumber.num_levels o v = Numbers.num_levels o v
apply_number CfNumber.level0_slowdown_writes_trigger o v =
    Numbers.level0_slowdown_writes_trigger o v
apply_number CfNumber.level0_stop_writes_trigger o v = Numbers.level0_stop_writes_trigger o v
apply_number CfNumber.target_file_size_base o v = Numbers.target_file_size_base o v
apply_number CfNumber.target_file_size_multiplier o v = Numbers.target_file_size_multiplier o v
apply_number CfNumber.max_bytes_for_level_multiplier o v =
    Numbers.max_bytes_for_level_multiplier o v
apply_number CfNumber.max_compaction_bytes o v = Numbers.max_compaction_bytes o v
apply_number CfNumber.soft_pending_compaction_bytes_limit o v =
    Numbers.soft_pending_compaction_bytes_limit o v
apply_number CfNumber.hard_pending_compaction_bytes_limit o v =
    Numbers.hard_pending_compaction_bytes_limit o v
apply_number CfNumber.max_sequential_skip_in_iterations o v =
    Numbers.max_sequential_skip_in_iterations o v
apply_number CfNumber.max_successive_merges o v = Numbers.max_successive_merges o v

pub apply_number-member :
    (m : CfNumber) (o : CfOptions) (v : ℕ) (w : OptionsWorld)
    → apply_number m o v w
      ≡ and_then (set_member cf_kind o.raw (number_member m) (Value.number v) w) (λ _ w'. done o w')
unfolding apply_number number_member
apply_number-member CfNumber.write_buffer_size o v w = refl
apply_number-member _ o v w = refl
