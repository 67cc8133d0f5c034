-- ===== src/Options/Small/Flush/Setters.antt =====
-- The setters of `FlushOptions` of plain values, as a `Builder`.
use rust_rocks.Common.{◌≡◌, refl, Bool, List, [], ◌∷◌}
use rust_rocks.Ffi.{done, M, and_then, alloc}
use rust_rocks.Options.Struct.{Value, Settings}
use rust_rocks.Options.Objects.{OptionsWorld, flush_kind}
use rust_rocks.Options.Fields.{FlushField}
use rust_rocks.Options.Chain.{Builder}
use rust_rocks.Options.Assign.{IsPlainScript-all, assign_all, assign_flag}
use rust_rocks.Options.Small.Flush
use rust_rocks.Options.Small.Flush.{FlushOptions, default}

-- The setters of plain values, with their arguments.
pub data FlushSetter : Type 0 where
  wait : Bool → FlushSetter

unfoldable pub apply : FlushSetter → FlushOptions → M OptionsWorld FlushOptions
unfolding Flush.wait
apply (FlushSetter.wait v) o = Flush.wait o v

-- The members that each setter is to assign.
unfoldable pub effects : FlushSetter → List (FlushField × Value)
effects (FlushSetter.wait v) = (FlushField.wait, Value.flag v) ∷ []

pub apply-assigns :
    (s : FlushSetter) (o : FlushOptions) (w : OptionsWorld)
    → apply s o w ≡ and_then (assign_all flush_kind (effects s) o.raw w) (λ _ w'. done o w')
unfolding apply effects
apply-assigns (FlushSetter.wait v) o w = assign_flag flush_kind FlushField.wait v o.raw o w

pub default-alloc :
    (d : Settings FlushField) (w : OptionsWorld)
    → default d w ≡ and_then (alloc (flush_kind.wrap d) w) (λ p w'. done (record { raw = p }) w')
unfolding default
default-alloc d w = refl

abbrev pub flush_builder : Builder flush_kind (Unit {0}) FlushOptions FlushSetter
flush_builder = record {
  raw = λ o. o.raw;
  from_raw = λ p. record { raw = p };
  raw-from_raw = λ _. refl;
  default = default;
  default-alloc = default-alloc;
  apply = apply;
  effects = effects;
  effects-plain = λ s. IsPlainScript-all flush_kind (λ _. refl) _;
  apply-assigns = apply-assigns;
}
