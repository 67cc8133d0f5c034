-- ===== src/Options/Small/Ingest/Setters.antt =====
-- The setters of `IngestExternalFileOptions` of plain values, as a `Builder`.
use rust_rocks.Common.{◌≡◌, refl, Bool, List, [], ◌∷◌}
use rust_rocks.Ffi.{done, M, and_then, alloc}
use rust_rocks.Options.Struct.{Value, Settings}
use rust_rocks.Options.Objects.{OptionsWorld, ingest_kind}
use rust_rocks.Options.Fields.{IngestField}
use rust_rocks.Options.Chain.{Builder}
use rust_rocks.Options.Assign.{IsPlainScript-all, assign_all, assign_flag}
use rust_rocks.Options.Small.Ingest
use rust_rocks.Options.Small.Ingest.{IngestExternalFileOptions, default}

-- The setters of plain values, with their arguments.
pub data IngestSetter : Type 0 where
  move_files : Bool → IngestSetter
  snapshot_consistency : Bool → IngestSetter
  allow_global_seqno : Bool → IngestSetter
  allow_blocking_flush : Bool → IngestSetter
  ingest_behind : Bool → IngestSetter

unfoldable pub apply :
    IngestSetter → IngestExternalFileOptions → M OptionsWorld IngestExternalFileOptions
unfolding Ingest.move_files Ingest.snapshot_consistency Ingest.allow_global_seqno
    Ingest.allow_blocking_flush Ingest.ingest_behind
apply (IngestSetter.move_files v) o = Ingest.move_files o v
apply (IngestSetter.snapshot_consistency v) o = Ingest.snapshot_consistency o v
apply (IngestSetter.allow_global_seqno v) o = Ingest.allow_global_seqno o v
apply (IngestSetter.allow_blocking_flush v) o = Ingest.allow_blocking_flush o v
apply (IngestSetter.ingest_behind v) o = Ingest.ingest_behind o v

-- The members that each setter is to assign.
unfoldable pub effects : IngestSetter → List (IngestField × Value)
effects (IngestSetter.move_files v) = (IngestField.move_files, Value.flag v) ∷ []
effects (IngestSetter.snapshot_consistency v) =
    (IngestField.snapshot_consistency, Value.flag v) ∷ []
effects (IngestSetter.allow_global_seqno v) = (IngestField.allow_global_seqno, Value.flag v) ∷ []
effects (IngestSetter.allow_blocking_flush v) =
    (IngestField.allow_blocking_flush, Value.flag v) ∷ []
effects (IngestSetter.ingest_behind v) = (IngestField.ingest_behind, Value.flag v) ∷ []

pub apply-assigns :
    (s : IngestSetter) (o : IngestExternalFileOptions) (w : OptionsWorld)
    → apply s o w ≡ and_then (assign_all ingest_kind (effects s) o.raw w) (λ _ w'. done o w')
unfolding apply effects
apply-assigns (IngestSetter.move_files v) o w =
    assign_flag ingest_kind IngestField.move_files v o.raw o w
apply-assigns (IngestSetter.snapshot_consistency v) o w =
    assign_flag ingest_kind IngestField.snapshot_consistency v o.raw o w
apply-assigns (IngestSetter.allow_global_seqno v) o w =
    assign_flag ingest_kind IngestField.allow_global_seqno v o.raw o w
apply-assigns (IngestSetter.allow_blocking_flush v) o w =
    assign_flag ingest_kind IngestField.allow_blocking_flush v o.raw o w
apply-assigns (IngestSetter.ingest_behind v) o w =
    assign_flag ingest_kind IngestField.ingest_behind v o.raw o w

pub default-alloc :
    (d : Settings IngestField) (w : OptionsWorld)
    → default d w ≡ and_then (alloc (ingest_kind.wrap d) w) (λ p w'. done (record { raw = p }) w')
unfolding default
default-alloc d w = refl

abbrev pub ingest_builder : Builder ingest_kind (Unit {0}) IngestExternalFileOptions IngestSetter
ingest_builder = record {
  raw = λ o. o.raw;
  from_raw = λ p. record { raw = p };
  raw-from_raw = λ _. refl;
  default = default;
  default-alloc = default-alloc;
  apply = apply;
  effects = effects;
  effects-plain = λ s. IsPlainScript-all ingest_kind (λ _. refl) _;
  apply-assigns = apply-assigns;
}
