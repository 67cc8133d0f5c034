-- ===== src/Options/Style/Fifo/Setters.antt =====
-- The setters of `CompactionOptionsFIFO` of plain values, as a `Builder`.
use rust_rocks.Common.{ℕ, ◌≡◌, refl, Bool, List, [], ◌∷◌}
use rust_rocks.Ffi.{done, M, and_then, alloc}
use rust_rocks.Options.Struct.{Value, Settings}
use rust_rocks.Options.Objects.{OptionsWorld, fifo_kind}
use rust_rocks.Options.Fields.{FifoField}
use rust_rocks.Options.Chain.{Builder}
use rust_rocks.Options.Assign.{IsPlainScript-all, assign_all, assign_one, assign_flag}
use rust_rocks.Options.Style.Fifo
use rust_rocks.Options.Style.Fifo.{CompactionOptionsFifo, default}

-- The setters of plain values, with their arguments.
pub data FifoSetter : Type 0 where
  allow_compaction : Bool → FifoSetter
  max_table_files_size : ℕ → FifoSetter
  ttl : ℕ → FifoSetter

unfoldable pub apply : FifoSetter → CompactionOptionsFifo → M OptionsWorld CompactionOptionsFifo
unfolding Fifo.allow_compaction Fifo.max_table_files_size Fifo.ttl
apply (FifoSetter.allow_compaction v) o = Fifo.allow_compaction o v
apply (FifoSetter.max_table_files_size v) o = Fifo.max_table_files_size o v
apply (FifoSetter.ttl v) o = Fifo.ttl o v

-- The members that each setter is to assign.
unfoldable pub effects : FifoSetter → List (FifoField × Value)
effects (FifoSetter.allow_compaction v) = (FifoField.allow_compaction, Value.flag v) ∷ []
effects (FifoSetter.max_table_files_size v) = (FifoField.max_table_files_size, Value.number v) ∷ []
effects (FifoSetter.ttl v) = (FifoField.ttl, Value.number v) ∷ []

pub apply-assigns :
    (s : FifoSetter) (o : CompactionOptionsFifo) (w : OptionsWorld)
    → apply s o w ≡ and_then (assign_all fifo_kind (effects s) o.raw w) (λ _ w'. done o w')
unfolding apply effects
apply-assigns (FifoSetter.allow_compaction v) o w =
    assign_flag fifo_kind FifoField.allow_compaction v o.raw o w
apply-assigns (FifoSetter.max_table_files_size v) o w =
    assign_one fifo_kind FifoField.max_table_files_size (Value.number v) o.raw o w
apply-assigns (FifoSetter.ttl v) o w = assign_one fifo_kind FifoField.ttl (Value.number v) o.raw o w

pub default-alloc :
    (d : Settings FifoField) (w : OptionsWorld)
    → default d w ≡ and_then (alloc (fifo_kind.wrap d) w) (λ p w'. done (record { raw = p }) w')
unfolding default
default-alloc d w = refl

abbrev pub fifo_builder : Builder fifo_kind (Unit {0}) CompactionOptionsFifo FifoSetter
fifo_builder = record {
  raw = λ o. o.raw;
  from_raw = λ p. record { raw = p };
  raw-from_raw = λ _. refl;
  default = default;
  default-alloc = default-alloc;
  apply = apply;
  effects = effects;
  effects-plain = λ s. IsPlainScript-all fifo_kind (λ _. refl) _;
  apply-assigns = apply-assigns;
}
