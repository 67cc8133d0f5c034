-- ===== src/Options/Cf/Setters.antt =====
-- The setters of `ColumnFamilyOptions` of plain values, as a `Builder`.
use rust_rocks.Common.{ℕ, ◌≡◌, refl, ap, ◌∙◌, Bool, true, false, List, [], ◌∷◌, map, take-length}
use rust_rocks.Ffi.{done, M, and_then, alloc}
use rust_rocks.Options.Struct.{Maker, Value, Settings, set_member, only-nil}
use rust_rocks.Options.Objects.{OptionsWorld, cf_kind}
use rust_rocks.Options.Fields.{CfField}
use rust_rocks.Options.Enums.{
  CompressionType, compression_type_to_int, CompactionStyle, compaction_style_to_int, CompactionPri,
  compaction_pri_to_int,
}
use rust_rocks.Options.Chain.{Builder}
use rust_rocks.Options.Assign.{
  IsPlainScript, assign_all, assign_one, assign_flag, assign_four, take-length-map,
}
use rust_rocks.Options.Cf.Object.{CfOptions, default}
use rust_rocks.Options.Cf.Numbers
use rust_rocks.Options.Cf.Others
use rust_rocks.Options.Cf.FlagSetters.{CfFlag, flag_member, apply_flag, apply_flag-member}
use rust_rocks.Options.Cf.NumberSetters.{CfNumber, number_member, apply_number, apply_number-member}

-- The setters of plain values, with their arguments.
pub data CfSetter : Type 0 where
  flag : CfFlag → Bool → CfSetter
  number : CfNumber → ℕ → CfSetter
  compression : CompressionType → CfSetter
  bottommost_compression : CompressionType → CfSetter
  compaction_style : CompactionStyle → CfSetter
  compaction_pri : CompactionPri → CfSetter
  prefix_extractor_fixed : ℕ → CfSetter
  prefix_extractor_capped : ℕ → CfSetter
  prefix_extractor_noop : CfSetter
  memtable_insert_with_hint_prefix_extractor_fixed : ℕ → CfSetter
  memtable_insert_with_hint_prefix_extractor_capped : ℕ → CfSetter
  memtable_insert_with_hint_prefix_extractor_noop : CfSetter
  memtable_factory_vector_rep : ℕ → CfSetter
  memtable_factory_hash_skip_list_rep : ℕ → ℕ → ℕ → CfSetter
  memtable_factory_hash_link_list_rep : ℕ → CfSetter
  memtable_factory_hash_cuckoo_rep : ℕ → ℕ → ℕ → CfSetter
  bitwise_comparator_reversed : Bool → CfSetter
  compression_opts : Others.CompressionOptions → CfSetter
  compression_per_level : List CompressionType → CfSetter
  max_bytes_for_level_multiplier_additional : List ℕ → CfSetter

unfoldable pub apply : CfSetter → CfOptions → M OptionsWorld CfOptions
unfolding apply_flag apply_number Numbers.compression Numbers.bottommost_compression
    Numbers.compaction_style Numbers.compaction_pri Others.prefix_extractor_fixed
    Others.prefix_extractor_capped Others.prefix_extractor_noop
    Others.memtable_insert_with_hint_prefix_extractor_fixed
    Others.memtable_insert_with_hint_prefix_extractor_capped
    Others.memtable_insert_with_hint_prefix_extractor_noop Others.memtable_factory_vector_rep
    Others.memtable_factory_hash_skip_list_rep Others.memtable_factory_hash_link_list_rep
    Others.memtable_factory_hash_cuckoo_rep Others.bitwise_comparator_reversed
    Others.compression_opts Others.compression_per_level
    Others.max_bytes_for_level_multiplier_additional
apply (CfSetter.flag m v) o = apply_flag m o v
apply (CfSetter.number m v) o = apply_number m o v
apply (CfSetter.compression v) o = Numbers.compression o v
apply (CfSetter.bottommost_compression v) o = Numbers.bottommost_compression o v
apply (CfSetter.compaction_style v) o = Numbers.compaction_style o v
apply (CfSetter.compaction_pri v) o = Numbers.compaction_pri o v
apply (CfSetter.prefix_extractor_fixed a) o = Others.prefix_extractor_fixed o a
apply (CfSetter.prefix_extractor_capped a) o = Others.prefix_extractor_capped o a
apply (CfSetter.prefix_extractor_noop) o = Others.prefix_extractor_noop o
apply (CfSetter.memtable_insert_with_hint_prefix_extractor_fixed a) o =
    Others.memtable_insert_with_hint_prefix_extractor_fixed o a
apply (CfSetter.memtable_insert_with_hint_prefix_extractor_capped a) o =
    Others.memtable_insert_with_hint_prefix_extractor_capped o a
apply (CfSetter.memtable_insert_with_hint_prefix_extractor_noop) o =
    Others.memtable_insert_with_hint_prefix_extractor_noop o
apply (CfSetter.memtable_factory_vector_rep a) o = Others.memtable_factory_vector_rep o a
apply (CfSetter.memtable_factory_hash_skip_list_rep a b c) o =
    Others.memtable_factory_hash_skip_list_rep o a b c
apply (CfSetter.memtable_factory_hash_link_list_rep a) o =
    Others.memtable_factory_hash_link_list_rep o a
apply (CfSetter.memtable_factory_hash_cuckoo_rep a b c) o =
    Others.memtable_factory_hash_cuckoo_rep o a b c
apply (CfSetter.bitwise_comparator_reversed v) o = Others.bitwise_comparator_reversed o v
apply (CfSetter.compression_opts v) o = Others.compression_opts o v
apply (CfSetter.compression_per_level v) o = Others.compression_per_level o v
apply (CfSetter.max_bytes_for_level_multiplier_additional v) o =
    Others.max_bytes_for_level_multiplier_additional o v

-- The members that each setter is to assign.
unfoldable pub effects : CfSetter → List (CfField × Value)
unfolding flag_member number_member compaction_pri_to_int compaction_style_to_int
    compression_type_to_int
effects (CfSetter.flag m v) = (flag_member m, Value.flag v) ∷ []
effects (CfSetter.number m v) = (number_member m, Value.number v) ∷ []
effects (CfSetter.compression v) =
    (CfField.compression, Value.number (compression_type_to_int v)) ∷ []
effects (CfSetter.bottommost_compression v) =
    (CfField.bottommost_compression, Value.number (compression_type_to_int v)) ∷ []
effects (CfSetter.compaction_style v) =
    (CfField.compaction_style, Value.number (compaction_style_to_int v)) ∷ []
effects (CfSetter.compaction_pri v) =
    (CfField.compaction_pri, Value.number (compaction_pri_to_int v)) ∷ []
effects (CfSetter.prefix_extractor_fixed a) =
    (CfField.prefix_extractor, Value.built Maker.fixed_prefix_transform (a ∷ [])) ∷ []
effects (CfSetter.prefix_extractor_capped a) =
    (CfField.prefix_extractor, Value.built Maker.capped_prefix_transform (a ∷ [])) ∷ []
effects (CfSetter.prefix_extractor_noop) =
    (CfField.prefix_extractor, Value.built Maker.noop_transform []) ∷ []
effects (CfSetter.memtable_insert_with_hint_prefix_extractor_fixed a) =
    (
      CfField.memtable_insert_with_hint_prefix_extractor,
      Value.built Maker.fixed_prefix_transform (a ∷ []),
    )
    ∷ []
effects (CfSetter.memtable_insert_with_hint_prefix_extractor_capped a) =
    (
      CfField.memtable_insert_with_hint_prefix_extractor,
      Value.built Maker.capped_prefix_transform (a ∷ []),
    )
    ∷ []
effects (CfSetter.memtable_insert_with_hint_prefix_extractor_noop) =
    (CfField.memtable_insert_with_hint_prefix_extractor, Value.built Maker.noop_transform []) ∷ []
effects (CfSetter.memtable_factory_vector_rep a) =
    (CfField.memtable_factory, Value.built Maker.vector_rep (a ∷ [])) ∷ []
effects (CfSetter.memtable_factory_hash_skip_list_rep a b c) =
    (CfField.memtable_factory, Value.built Maker.hash_skip_list_rep (a ∷ b ∷ c ∷ [])) ∷ []
effects (CfSetter.memtable_factory_hash_link_list_rep a) =
    (CfField.memtable_factory, Value.built Maker.hash_link_list_rep (a ∷ [])) ∷ []
effects (CfSetter.memtable_factory_hash_cuckoo_rep a b c) =
    (CfField.memtable_factory, Value.built Maker.hash_cuckoo_rep (a ∷ b ∷ c ∷ [])) ∷ []
effects (CfSetter.bitwise_comparator_reversed true) =
    (CfField.comparator, Value.built Maker.reverse_bytewise_comparator []) ∷ []
effects (CfSetter.bitwise_comparator_reversed false) =
    (CfField.comparator, Value.built Maker.bytewise_comparator []) ∷ []
effects (CfSetter.compression_opts v) =
    (CfField.window_bits, Value.number v.window_bits)
    ∷ (CfField.level, Value.number v.level)
    ∷ (CfField.strategy, Value.number v.strategy)
    ∷ (CfField.max_dict_bytes, Value.number v.max_dict_bytes)
    ∷ []
effects (CfSetter.compression_per_level v) =
    (CfField.compression_per_level, Value.numbers (map compression_type_to_int v)) ∷ []
effects (CfSetter.max_bytes_for_level_multiplier_additional v) =
    (CfField.max_bytes_for_level_multiplier_additional, Value.numbers v) ∷ []

-- No setter of plain values assigns a box.
pub effects-plain : (s : CfSetter) → IsPlainScript cf_kind (effects s)
unfolding effects
effects-plain (CfSetter.flag m v) = (only-nil (cf_kind.owns (flag_member m)), tt)
effects-plain (CfSetter.number m v) = (only-nil (cf_kind.owns (number_member m)), tt)
effects-plain (CfSetter.compression a) = (refl, tt)
effects-plain (CfSetter.bottommost_compression a) = (refl, tt)
effects-plain (CfSetter.compaction_style a) = (refl, tt)
effects-plain (CfSetter.compaction_pri a) = (refl, tt)
effects-plain (CfSetter.prefix_extractor_fixed a) = (refl, tt)
effects-plain (CfSetter.prefix_extractor_capped a) = (refl, tt)
effects-plain CfSetter.prefix_extractor_noop = (refl, tt)
effects-plain (CfSetter.memtable_insert_with_hint_prefix_extractor_fixed a) = (refl, tt)
effects-plain (CfSetter.memtable_insert_with_hint_prefix_extractor_capped a) = (refl, tt)
effects-plain CfSetter.memtable_insert_with_hint_prefix_extractor_noop = (refl, tt)
effects-plain (CfSetter.memtable_factory_vector_rep a) = (refl, tt)
effects-plain (CfSetter.memtable_factory_hash_skip_list_rep a b c) = (refl, tt)
effects-plain (CfSetter.memtable_factory_hash_link_list_rep a) = (refl, tt)
effects-plain (CfSetter.memtable_factory_hash_cuckoo_rep a b c) = (refl, tt)
effects-plain (CfSetter.bitwise_comparator_reversed true) = (refl, tt)
effects-plain (CfSetter.bitwise_comparator_reversed false) = (refl, tt)
effects-plain (CfSetter.compression_opts v) = (refl, (refl, (refl, (refl, tt))))
effects-plain (CfSetter.compression_per_level a) = (refl, tt)
effects-plain (CfSetter.max_bytes_for_level_multiplier_additional a) = (refl, tt)

pub apply-assigns :
    (s : CfSetter) (o : CfOptions) (w : OptionsWorld)
    → apply s o w ≡ and_then (assign_all cf_kind (effects s) o.raw w) (λ _ w'. done o w')
unfolding apply effects
apply-assigns (CfSetter.flag m v) o w =
    apply_flag-member m o v w ∙ assign_flag cf_kind (flag_member m) v o.raw o w
apply-assigns (CfSetter.number m v) o w =
    apply_number-member m o v w ∙ assign_one cf_kind (number_member m) (Value.number v) o.raw o w
apply-assigns (CfSetter.compression v) o w =
    assign_one cf_kind CfField.compression (Value.number (compression_type_to_int v)) o.raw o w
apply-assigns (CfSetter.bottommost_compression v) o w =
    assign_one cf_kind CfField.bottommost_compression (Value.number (compression_type_to_int v))
      o.raw o w
apply-assigns (CfSetter.compaction_style v) o w =
    assign_one cf_kind CfField.compaction_style (Value.number (compaction_style_to_int v)) o.raw o w
apply-assigns (CfSetter.compaction_pri v) o w =
    assign_one cf_kind CfField.compaction_pri (Value.number (compaction_pri_to_int v)) o.raw o w
apply-assigns (CfSetter.prefix_extractor_fixed a) o w =
    assign_one cf_kind CfField.prefix_extractor (Value.built Maker.fixed_prefix_transform (a ∷ []))
      o.raw o w
apply-assigns (CfSetter.prefix_extractor_capped a) o w =
    assign_one cf_kind CfField.prefix_extractor (Value.built Maker.capped_prefix_transform (a ∷ []))
      o.raw o w
apply-assigns (CfSetter.prefix_extractor_noop) o w =
    assign_one cf_kind CfField.prefix_extractor (Value.built Maker.noop_transform []) o.raw o w
apply-assigns (CfSetter.memtable_insert_with_hint_prefix_extractor_fixed a) o w =
    assign_one cf_kind CfField.memtable_insert_with_hint_prefix_extractor
      (Value.built Maker.fixed_prefix_transform (a ∷ [])) o.raw o w
apply-assigns (CfSetter.memtable_insert_with_hint_prefix_extractor_capped a) o w =
    assign_one cf_kind CfField.memtable_insert_with_hint_prefix_extractor
      (Value.built Maker.capped_prefix_transform (a ∷ [])) o.raw o w
apply-assigns (CfSetter.memtable_insert_with_hint_prefix_extractor_noop) o w =
    assign_one cf_kind CfField.memtable_insert_with_hint_prefix_extractor
      (Value.built Maker.noop_transform []) o.raw o w
apply-assigns (CfSetter.memtable_factory_vector_rep a) o w =
    assign_one cf_kind CfField.memtable_factory (Value.built Maker.vector_rep (a ∷ [])) o.raw o w
apply-assigns (CfSetter.memtable_factory_hash_skip_list_rep a b c) o w =
    assign_one cf_kind CfField.memtable_factory
      (Value.built Maker.hash_skip_list_rep (a ∷ b ∷ c ∷ [])) o.raw o w
apply-assigns (CfSetter.memtable_factory_hash_link_list_rep a) o w =
    assign_one cf_kind CfField.memtable_factory (Value.built Maker.hash_link_list_rep (a ∷ []))
      o.raw o w
apply-assigns (CfSetter.memtable_factory_hash_cuckoo_rep a b c) o w =
    assign_one cf_kind CfField.memtable_factory (Value.built Maker.hash_cuckoo_rep (a ∷ b ∷ c ∷ []))
      o.raw o w
apply-assigns (CfSetter.bitwise_comparator_reversed true) o w =
    assign_one cf_kind CfField.comparator (Value.built Maker.reverse_bytewise_comparator []) o.raw o
      w
apply-assigns (CfSetter.bitwise_comparator_reversed false) o w =
    assign_one cf_kind CfField.comparator (Value.built Maker.bytewise_comparator []) o.raw o w
apply-assigns (CfSetter.compression_opts v) o w =
    assign_four cf_kind CfField.window_bits CfField.level CfField.strategy CfField.max_dict_bytes
      (Value.number v.window_bits) (Value.number v.level) (Value.number v.strategy)
      (Value.number v.max_dict_bytes) o.raw o w
apply-assigns (CfSetter.compression_per_level v) o w =
    ap
      (λ u.
        and_then (set_member cf_kind o.raw CfField.compression_per_level (Value.numbers u) w)
          (λ _ w'. done o w'))
      (take-length-map compression_type_to_int v)
    ∙ assign_one cf_kind CfField.compression_per_level
        (Value.numbers (map compression_type_to_int v)) o.raw o w
apply-assigns (CfSetter.max_bytes_for_level_multiplier_additional v) o w =
    ap
      (λ u.
        and_then
          (set_member cf_kind o.raw CfField.max_bytes_for_level_multiplier_additional
            (Value.numbers u) w)
          (λ _ w'. done o w'))
      (take-length v)
    ∙ assign_one cf_kind CfField.max_bytes_for_level_multiplier_additional (Value.numbers v) o.raw o
        w

pub default-alloc :
    (d : Settings CfField) (w : OptionsWorld)
    → default d w ≡ and_then (alloc (cf_kind.wrap d) w) (λ p w'. done (record { raw = p }) w')
unfolding default
default-alloc d w = refl

abbrev pub cf_builder : Builder cf_kind (Unit {0}) CfOptions CfSetter
cf_builder = record {
  raw = λ o. o.raw;
  from_raw = λ p. record { raw = p };
  raw-from_raw = λ _. refl;
  default = default;
  default-alloc = default-alloc;
  apply = apply;
  effects = effects;
  effects-plain = effects-plain;
  apply-assigns = apply-assigns;
}
