-- ===== src/Options/Small/Compaction/Setters.antt =====
-- The setters of `CompactionOptions` of plain values, as a `Builder`.
use rust_rocks.Common.{ℕ, ◌≡◌, refl, List, [], ◌∷◌}
use rust_rocks.Ffi.{done, M, and_then, alloc}
use rust_rocks.Options.Struct.{Value, Settings}
use rust_rocks.Options.Objects.{OptionsWorld, compaction_kind}
use rust_rocks.Options.Fields.{CompactionField}
use rust_rocks.Options.Enums.{CompressionType, compression_type_to_int}
use rust_rocks.Options.Chain.{Builder}
use rust_rocks.Options.Assign.{IsPlainScript-all, assign_all, assign_one}
use rust_rocks.Options.Small.Compaction
use rust_rocks.Options.Small.Compaction.{CompactionOptions, default}

-- The setters of plain values, with their arguments.
pub data CompactionSetter : Type 0 where
  output_file_size_limit : ℕ → CompactionSetter
  compression : CompressionType → CompactionSetter

unfoldable pub apply : CompactionSetter → CompactionOptions → M OptionsWorld CompactionOptions
unfolding Compaction.output_file_size_limit Compaction.compression
apply (CompactionSetter.output_file_size_limit v) o = Compaction.output_file_size_limit o v
apply (CompactionSetter.compression v) o = Compaction.compression o v

-- The members that each setter is to assign.
unfoldable pub effects : CompactionSetter → List (CompactionField × Value)
unfolding compression_type_to_int
effects (CompactionSetter.output_file_size_limit v) =
    (CompactionField.output_file_size_limit, Value.number v) ∷ []
effects (CompactionSetter.compression v) =
    (CompactionField.compression, Value.number (compression_type_to_int v)) ∷ []

pub apply-assigns :
    (s : CompactionSetter) (o : CompactionOptions) (w : OptionsWorld)
    → apply s o w ≡ and_then (assign_all compaction_kind (effects s) o.raw w) (λ _ w'. done o w')
unfolding apply effects
apply-assigns (CompactionSetter.output_file_size_limit v) o w =
    assign_one compaction_kind CompactionField.output_file_size_limit (Value.number v) o.raw o w
apply-assigns (CompactionSetter.compression v) o w =
    assign_one compaction_kind CompactionField.compression
      (Value.number (compression_type_to_int v)) o.raw o w

pub default-alloc :
    (d : Settings CompactionField) (w : OptionsWorld)
    → default d w
      ≡ and_then (alloc (compaction_kind.wrap d) w) (λ p w'. done (record { raw = p }) w')
unfolding default
default-alloc d w = refl

abbrev pub compaction_builder :
    Builder compaction_kind (Unit {0}) CompactionOptions CompactionSetter
compaction_builder = record {
  raw = λ o. o.raw;
  from_raw = λ p. record { raw = p };
  raw-from_raw = λ _. refl;
  default = default;
  default-alloc = default-alloc;
  apply = apply;
  effects = effects;
  effects-plain = λ s. IsPlainScript-all compaction_kind (λ _. refl) _;
  apply-assigns = apply-assigns;
}
