-- ===== src/Options/Table/Block/Setters.antt =====
-- The setters of `BlockBasedTableOptions` of plain values, as a `Builder`.
use rust_rocks.Common.{ℕ, ◌≡◌, refl, ◌∙◌, Bool, List, [], ◌∷◌, to_u8}
use rust_rocks.Ffi.{done, M, and_then, alloc}
use rust_rocks.Options.Struct.{Value, Settings, set_member, flag_of}
use rust_rocks.Options.Objects.{OptionsWorld, block_kind}
use rust_rocks.Options.Fields.{BlockField}
use rust_rocks.Options.Enums.{IndexType, index_type_to_int}
use rust_rocks.Options.Chain.{Builder}
use rust_rocks.Options.Assign.{IsPlainScript-all, assign_all, assign_one, assign_flag}
use rust_rocks.Options.Table.Block
use rust_rocks.Options.Table.Block.{BlockBasedTableOptions, default}

pub data BlockFlag : Type 0 where
  cache_index_and_filter_blocks cache_index_and_filter_blocks_with_high_priority : BlockFlag
  pin_l0_filter_and_index_blocks_in_cache hash_index_allow_collision no_block_cache : BlockFlag
  partition_filters use_delta_encoding whole_key_filtering verify_compression : BlockFlag

unfoldable pub flag_member : BlockFlag → BlockField
flag_member BlockFlag.cache_index_and_filter_blocks = BlockField.cache_index_and_filter_blocks
flag_member BlockFlag.cache_index_and_filter_blocks_with_high_priority =
    BlockField.cache_index_and_filter_blocks_with_high_priority
flag_member BlockFlag.pin_l0_filter_and_index_blocks_in_cache =
    BlockField.pin_l0_filter_and_index_blocks_in_cache
flag_member BlockFlag.hash_index_allow_collision = BlockField.hash_index_allow_collision
flag_member BlockFlag.no_block_cache = BlockField.no_block_cache
flag_member BlockFlag.partition_filters = BlockField.partition_filters
flag_member BlockFlag.use_delta_encoding = BlockField.use_delta_encoding
flag_member BlockFlag.whole_key_filtering = BlockField.whole_key_filtering
flag_member BlockFlag.verify_compression = BlockField.verify_compression

unfoldable pub apply_flag :
    BlockFlag → BlockBasedTableOptions → Bool → M OptionsWorld BlockBasedTableOptions
unfolding Block.cache_index_and_filter_blocks Block.cache_index_and_filter_blocks_with_high_priority
    Block.pin_l0_filter_and_index_blocks_in_cache Block.hash_index_allow_collision
    Block.no_block_cache Block.partition_filters Block.use_delta_encoding Block.whole_key_filtering
    Block.verify_compression
apply_flag BlockFlag.cache_index_and_filter_blocks o v = Block.cache_index_and_filter_blocks o v
apply_flag BlockFlag.cache_index_and_filter_blocks_with_high_priority o v =
    Block.cache_index_and_filter_blocks_with_high_priority o v
apply_flag BlockFlag.pin_l0_filter_and_index_blocks_in_cache o v =
    Block.pin_l0_filter_and_index_blocks_in_cache o v
apply_flag BlockFlag.hash_index_allow_collision o v = Block.hash_index_allow_collision o v
apply_flag BlockFlag.no_block_cache o v = Block.no_block_cache o v
apply_flag BlockFlag.partition_filters o v = Block.partition_filters o v
apply_flag BlockFlag.use_delta_encoding o v = Block.use_delta_encoding o v
apply_flag BlockFlag.whole_key_filtering o v = Block.whole_key_filtering o v
apply_flag BlockFlag.verify_compression o v = Block.verify_compression o v

pub apply_flag-member :
    (m : BlockFlag) (o : BlockBasedTableOptions) (v : Bool) (w : OptionsWorld)
    → apply_flag m o v w
      ≡ and_then
          (set_member block_kind o.raw (flag_member m) (flag_of (to_u8 v)) w)
          (λ _ w'. done o w')
unfolding apply_flag flag_member
apply_flag-member BlockFlag.cache_index_and_filter_blocks o v w = refl
apply_flag-member _ o v w = refl

pub data BlockNumber : Type 0 where
  block_size block_size_deviation block_restart_interval : BlockNumber
  index_block_restart_interval metadata_block_size read_amp_bytes_per_bit : BlockNumber
  format_version : BlockNumber

unfoldable pub number_member : BlockNumber → BlockField
number_member BlockNumber.block_size = BlockField.block_size
number_member BlockNumber.block_size_deviation = BlockField.block_size_deviation
number_member BlockNumber.block_restart_interval = BlockField.block_restart_interval
number_member BlockNumber.index_block_restart_interval = BlockField.index_block_restart_interval
number_member BlockNumber.metadata_block_size = BlockField.metadata_block_size
number_member BlockNumber.read_amp_bytes_per_bit = BlockField.read_amp_bytes_per_bit
number_member BlockNumber.format_version = BlockField.format_version

unfoldable pub apply_number :
    BlockNumber → BlockBasedTableOptions → ℕ → M OptionsWorld BlockBasedTableOptions
unfolding Block.block_size Block.block_size_deviation Block.block_restart_interval
    Block.index_block_restart_interval Block.metadata_block_size Block.read_amp_bytes_per_bit
    Block.format_version
apply_number BlockNumber.block_size o v = Block.block_size o v
apply_number BlockNumber.block_size_deviation o v = Block.block_size_deviation o v
apply_number BlockNumber.block_restart_interval o v = Block.block_restart_interval o v
apply_number BlockNumber.index_block_restart_interval o v = Block.index_block_restart_interval o v
apply_number BlockNumber.metadata_block_size o v = Block.metadata_block_size o v
apply_number BlockNumber.read_amp_bytes_per_bit o v = Block.read_amp_bytes_per_bit o v
apply_number BlockNumber.format_version o v = Block.format_version o v

pub apply_number-member :
    (m : BlockNumber) (o : BlockBasedTableOptions) (v : ℕ) (w : OptionsWorld)
    → apply_number m o v w
      ≡ and_then
          (set_member block_kind o.raw (number_member m) (Value.number v) w)
          (λ _ w'. done o w')
unfolding apply_number number_member
apply_number-member BlockNumber.block_size o v w = refl
apply_number-member _ o v w = refl

-- The setters of plain values, with their arguments.
pub data BlockSetter : Type 0 where
  flag : BlockFlag → Bool → BlockSetter
  number : BlockNumber → ℕ → BlockSetter
  index_type : IndexType → BlockSetter

unfoldable pub apply : BlockSetter → BlockBasedTableOptions → M OptionsWorld BlockBasedTableOptions
unfolding apply_flag apply_number Block.index_type
apply (BlockSetter.flag m v) o = apply_flag m o v
apply (BlockSetter.number m v) o = apply_number m o v
apply (BlockSetter.index_type v) o = Block.index_type o v

-- The members that each setter is to assign.
unfoldable pub effects : BlockSetter → List (BlockField × Value)
unfolding flag_member number_member index_type_to_int
effects (BlockSetter.flag m v) = (flag_member m, Value.flag v) ∷ []
effects (BlockSetter.number m v) = (number_member m, Value.number v) ∷ []
effects (BlockSetter.index_type v) =
    (BlockField.index_type, Value.number (index_type_to_int v)) ∷ []

pub apply-assigns :
    (s : BlockSetter) (o : BlockBasedTableOptions) (w : OptionsWorld)
    → apply s o w ≡ and_then (assign_all block_kind (effects s) o.raw w) (λ _ w'. done o w')
unfolding apply effects
apply-assigns (BlockSetter.flag m v) o w =
    apply_flag-member m o v w ∙ assign_flag block_kind (flag_member m) v o.raw o w
apply-assigns (BlockSetter.number m v) o w =
    apply_number-member m o v w ∙ assign_one block_kind (number_member m) (Value.number v) o.raw o w
apply-assigns (BlockSetter.index_type v) o w =
    assign_one block_kind BlockField.index_type (Value.number (index_type_to_int v)) o.raw o w

pub default-alloc :
    (d : Settings BlockField) (w : OptionsWorld)
    → default d w ≡ and_then (alloc (block_kind.wrap d) w) (λ p w'. done (record { raw = p }) w')
unfolding default
default-alloc d w = refl

abbrev pub block_builder : Builder block_kind (Unit {0}) BlockBasedTableOptions BlockSetter
block_builder = record {
  raw = λ o. o.raw;
  from_raw = λ p. record { raw = p };
  raw-from_raw = λ _. refl;
  default = default;
  default-alloc = default-alloc;
  apply = apply;
  effects = effects;
  effects-plain = λ s. IsPlainScript-all block_kind (λ _. refl) _;
  apply-assigns = apply-assigns;
}
