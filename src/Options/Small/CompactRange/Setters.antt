-- ===== src/Options/Small/CompactRange/Setters.antt =====
-- The setters of `CompactRangeOptions` of plain values, as a `Builder`.
use rust_rocks.Common.{ℕ, ◌≡◌, refl, Bool, List, [], ◌∷◌}
use rust_rocks.Ffi.{done, M, and_then, alloc}
use rust_rocks.Options.Struct.{Value, Settings}
use rust_rocks.Options.Objects.{OptionsWorld, compact_range_kind}
use rust_rocks.Options.Fields.{CompactRangeField}
use rust_rocks.Options.Enums.{BottommostLevelCompaction, bottommost_level_compaction_to_int}
use rust_rocks.Options.Chain.{Builder}
use rust_rocks.Options.Assign.{IsPlainScript-all, assign_all, assign_one, assign_flag}
use rust_rocks.Options.Small.CompactRange
use rust_rocks.Options.Small.CompactRange.{CompactRangeOptions, default}

-- The setters of plain values, with their arguments.
pub data CompactRangeSetter : Type 0 where
  exclusive_manual_compaction : Bool → CompactRangeSetter
  change_level : Bool → CompactRangeSetter
  target_level : ℕ → CompactRangeSetter
  target_path_id : ℕ → CompactRangeSetter
  bottommost_level_compaction : BottommostLevelCompaction → CompactRangeSetter

unfoldable pub apply : CompactRangeSetter → CompactRangeOptions → M OptionsWorld CompactRangeOptions
unfolding CompactRange.exclusive_manual_compaction CompactRange.change_level
    CompactRange.target_level CompactRange.target_path_id CompactRange.bottommost_level_compaction
apply (CompactRangeSetter.exclusive_manual_compaction v) o =
    CompactRange.exclusive_manual_compaction o v
apply (CompactRangeSetter.change_level v) o = CompactRange.change_level o v
apply (CompactRangeSetter.target_level v) o = CompactRange.target_level o v
apply (CompactRangeSetter.target_path_id v) o = CompactRange.target_path_id o v
apply (CompactRangeSetter.bottommost_level_compaction v) o =
    CompactRange.bottommost_level_compaction o v

-- The members that each setter is to assign.
unfoldable pub effects : CompactRangeSetter → List (CompactRangeField × Value)
unfolding bottommost_level_compaction_to_int
effects (CompactRangeSetter.exclusive_manual_compaction v) =
    (CompactRangeField.exclusive_manual_compaction, Value.flag v) ∷ []
effects (CompactRangeSetter.change_level v) = (CompactRangeField.change_level, Value.flag v) ∷ []
effects (CompactRangeSetter.target_level v) = (CompactRangeField.target_level, Value.number v) ∷ []
effects (CompactRangeSetter.target_path_id v) =
    (CompactRangeField.target_path_id, Value.number v) ∷ []
effects (CompactRangeSetter.bottommost_level_compaction v) =
    (
      CompactRangeField.bottommost_level_compaction,
      Value.number (bottommost_level_compaction_to_int v),
    )
    ∷ []

pub apply-assigns :
    (s : CompactRangeSetter) (o : CompactRangeOptions) (w : OptionsWorld)
    → apply s o w ≡ and_then (assign_all compact_range_kind (effects s) o.raw w) (λ _ w'. done o w')
unfolding apply effects
apply-assigns (CompactRangeSetter.exclusive_manual_compaction v) o w =
    assign_flag compact_range_kind CompactRangeField.exclusive_manual_compaction v o.raw o w
apply-assigns (CompactRangeSetter.change_level v) o w =
    assign_flag compact_range_kind CompactRangeField.change_level v o.raw o w
apply-assigns (CompactRangeSetter.target_level v) o w =
    assign_one compact_range_kind CompactRangeField.target_level (Value.number v) o.raw o w
apply-assigns (CompactRangeSetter.target_path_id v) o w =
    assign_one compact_range_kind CompactRangeField.target_path_id (Value.number v) o.raw o w
apply-assigns (CompactRangeSetter.bottommost_level_compaction v) o w =
    assign_one compact_range_kind CompactRangeField.bottommost_level_compaction
      (Value.number (bottommost_level_compaction_to_int v)) o.raw o w

pub default-alloc :
    (d : Settings CompactRangeField) (w : OptionsWorld)
    → default d w
      ≡ and_then (alloc (compact_range_kind.wrap d) w) (λ p w'. done (record { raw = p }) w')
unfolding default
default-alloc d w = refl

abbrev pub compact_range_builder :
    Builder compact_range_kind (Unit {0}) CompactRangeOptions CompactRangeSetter
compact_range_builder = record {
  raw = λ o. o.raw;
  from_raw = λ p. record { raw = p };
  raw-from_raw = λ _. refl;
  default = default;
  default-alloc = default-alloc;
  apply = apply;
  effects = effects;
  effects-plain = λ s. IsPlainScript-all compact_range_kind (λ _. refl) _;
  apply-assigns = apply-assigns;
}
