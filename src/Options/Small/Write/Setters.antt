-- ===== src/Options/Small/Write/Setters.antt =====
-- The setters of `WriteOptions` of plain values, as a `Builder`.
use rust_rocks.Common.{◌≡◌, refl, Bool, List, [], ◌∷◌}
use rust_rocks.Ffi.{done, M, and_then, alloc}
use rust_rocks.Options.Struct.{Value, Settings}
use rust_rocks.Options.Objects.{OptionsWorld, write_kind}
use rust_rocks.Options.Fields.{WriteField}
use rust_rocks.Options.Chain.{Builder}
use rust_rocks.Options.Assign.{IsPlainScript-all, assign_all, assign_flag}
use rust_rocks.Options.Small.Write
use rust_rocks.Options.Small.Write.{WriteOptions, default}

-- The setters of plain values, with their arguments.
pub data WriteSetter : Type 0 where
  sync : Bool → WriteSetter
  disable_wal : Bool → WriteSetter
  ignore_missing_column_families : Bool → WriteSetter
  no_slowdown : Bool → WriteSetter
  low_pri : Bool → WriteSetter

unfoldable pub apply : WriteSetter → WriteOptions → M OptionsWorld WriteOptions
unfolding Write.sync Write.disable_wal Write.ignore_missing_column_families Write.no_slowdown
    Write.low_pri
apply (WriteSetter.sync v) o = Write.sync o v
apply (WriteSetter.disable_wal v) o = Write.disable_wal o v
apply (WriteSetter.ignore_missing_column_families v) o = Write.ignore_missing_column_families o v
apply (WriteSetter.no_slowdown v) o = Write.no_slowdown o v
apply (WriteSetter.low_pri v) o = Write.low_pri o v

-- The members that each setter is to assign.
unfoldable pub effects : WriteSetter → List (WriteField × Value)
effects (WriteSetter.sync v) = (WriteField.sync, Value.flag v) ∷ []
effects (WriteSetter.disable_wal v) = (WriteField.disable_wal, Value.flag v) ∷ []
effects (WriteSetter.ignore_missing_column_families v) =
    (WriteField.ignore_missing_column_families, Value.flag v) ∷ []
effects (WriteSetter.no_slowdown v) = (WriteField.no_slowdown, Value.flag v) ∷ []
effects (WriteSetter.low_pri v) = (WriteField.low_pri, Value.flag v) ∷ []

pub apply-assigns :
    (s : WriteSetter) (o : WriteOptions) (w : OptionsWorld)
    → apply s o w ≡ and_then (assign_all write_kind (effects s) o.raw w) (λ _ w'. done o w')
unfolding apply effects
apply-assigns (WriteSetter.sync v) o w = assign_flag write_kind WriteField.sync v o.raw o w
apply-assigns (WriteSetter.disable_wal v) o w =
    assign_flag write_kind WriteField.disable_wal v o.raw o w
apply-assigns (WriteSetter.ignore_missing_column_families v) o w =
    assign_flag write_kind WriteField.ignore_missing_column_families v o.raw o w
apply-assigns (WriteSetter.no_slowdown v) o w =
    assign_flag write_kind WriteField.no_slowdown v o.raw o w
apply-assigns (WriteSetter.low_pri v) o w = assign_flag write_kind WriteField.low_pri v o.raw o w

pub default-alloc :
    (d : Settings WriteField) (w : OptionsWorld)
    → default d w ≡ and_then (alloc (write_kind.wrap d) w) (λ p w'. done (record { raw = p }) w')
unfolding default
default-alloc d w = refl

abbrev pub write_builder : Builder write_kind (Unit {0}) WriteOptions WriteSetter
write_builder = record {
  raw = λ o. o.raw;
  from_raw = λ p. record { raw = p };
  raw-from_raw = λ _. refl;
  default = default;
  default-alloc = default-alloc;
  apply = apply;
  effects = effects;
  effects-plain = λ s. IsPlainScript-all write_kind (λ _. refl) _;
  apply-assigns = apply-assigns;
}
