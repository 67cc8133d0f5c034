-- ===== src/Options/Style/Universal/Setters.antt =====
-- The setters of `CompactionOptionsUniversal` of plain values, as a `Builder`.
use rust_rocks.Common.{ℕ, ◌≡◌, refl, Bool, List, [], ◌∷◌}
use rust_rocks.Ffi.{done, M, and_then, alloc}
use rust_rocks.Options.Struct.{Value, Settings}
use rust_rocks.Options.Objects.{OptionsWorld, universal_kind}
use rust_rocks.Options.Fields.{UniversalField}
use rust_rocks.Options.Enums.{CompactionStopStyle, compaction_stop_style_to_int}
use rust_rocks.Options.Chain.{Builder}
use rust_rocks.Options.Assign.{IsPlainScript-all, assign_all, assign_one, assign_flag}
use rust_rocks.Options.Style.Universal
use rust_rocks.Options.Style.Universal.{CompactionOptionsUniversal, default}

-- The setters of plain values, with their arguments.
pub data UniversalSetter : Type 0 where
  allow_trivial_move : Bool → UniversalSetter
  size_ratio : ℕ → UniversalSetter
  min_merge_width : ℕ → UniversalSetter
  max_merge_width : ℕ → UniversalSetter
  max_size_amplification_percent : ℕ → UniversalSetter
  compression_size_percent : ℕ → UniversalSetter
  stop_style : CompactionStopStyle → UniversalSetter

unfoldable pub apply :
    UniversalSetter → CompactionOptionsUniversal → M OptionsWorld CompactionOptionsUniversal
unfolding Universal.allow_trivial_move Universal.size_ratio Universal.min_merge_width
    Universal.max_merge_width Universal.max_size_amplification_percent
    Universal.compression_size_percent Universal.stop_style
apply (UniversalSetter.allow_trivial_move v) o = Universal.allow_trivial_move o v
apply (UniversalSetter.size_ratio v) o = Universal.size_ratio o v
apply (UniversalSetter.min_merge_width v) o = Universal.min_merge_width o v
apply (UniversalSetter.max_merge_width v) o = Universal.max_merge_width o v
apply (UniversalSetter.max_size_amplification_percent v) o =
    Universal.max_size_amplification_percent o v
apply (UniversalSetter.compression_size_percent v) o = Universal.compression_size_percent o v
apply (UniversalSetter.stop_style v) o = Universal.stop_style o v

-- The members that each setter is to assign.
unfoldable pub effects : UniversalSetter → List (UniversalField × Value)
unfolding compaction_stop_style_to_int
effects (UniversalSetter.allow_trivial_move v) =
    (UniversalField.allow_trivial_move, Value.flag v) ∷ []
effects (UniversalSetter.size_ratio v) = (UniversalField.size_ratio, Value.number v) ∷ []
effects (UniversalSetter.min_merge_width v) = (UniversalField.min_merge_width, Value.number v) ∷ []
effects (UniversalSetter.max_merge_width v) = (UniversalField.max_merge_width, Value.number v) ∷ []
effects (UniversalSetter.max_size_amplification_percent v) =
    (UniversalField.max_size_amplification_percent, Value.number v) ∷ []
effects (UniversalSetter.compression_size_percent v) =
    (UniversalField.compression_size_percent, Value.number v) ∷ []
effects (UniversalSetter.stop_style v) =
    (UniversalField.stop_style, Value.number (compaction_stop_style_to_int v)) ∷ []

pub apply-assigns :
    (s : UniversalSetter) (o : CompactionOptionsUniversal) (w : OptionsWorld)
    → apply s o w ≡ and_then (assign_all universal_kind (effects s) o.raw w) (λ _ w'. done o w')
unfolding apply effects
apply-assigns (UniversalSetter.allow_trivial_move v) o w =
    assign_flag universal_kind UniversalField.allow_trivial_move v o.raw o w
apply-assigns (UniversalSetter.size_ratio v) o w =
    assign_one universal_kind UniversalField.size_ratio (Value.number v) o.raw o w
apply-assigns (UniversalSetter.min_merge_width v) o w =
    assign_one universal_kind UniversalField.min_merge_width (Value.number v) o.raw o w
apply-assigns (UniversalSetter.max_merge_width v) o w =
    assign_one universal_kind UniversalField.max_merge_width (Value.number v) o.raw o w
apply-assigns (UniversalSetter.max_size_amplification_percent v) o w =
    assign_one universal_kind UniversalField.max_size_amplification_percent (Value.number v) o.raw o
      w
apply-assigns (UniversalSetter.compression_size_percent v) o w =
    assign_one universal_kind UniversalField.compression_size_percent (Value.number v) o.raw o w
apply-assigns (UniversalSetter.stop_style v) o w =
    assign_one universal_kind UniversalField.stop_style
      (Value.number (compaction_stop_style_to_int v)) o.raw o w

pub default-alloc :
    (d : Settings UniversalField) (w : OptionsWorld)
    → default d w
      ≡ and_then (alloc (universal_kind.wrap d) w) (λ p w'. done (record { raw = p }) w')
unfolding default
default-alloc d w = refl

abbrev pub universal_builder :
    Builder universal_kind (Unit {0}) CompactionOptionsUniversal UniversalSetter
universal_builder = record {
  raw = λ o. o.raw;
  from_raw = λ p. record { raw = p };
  raw-from_raw = λ _. refl;
  default = default;
  default-alloc = default-alloc;
  apply = apply;
  effects = effects;
  effects-plain = λ s. IsPlainScript-all universal_kind (λ _. refl) _;
  apply-assigns = apply-assigns;
}
