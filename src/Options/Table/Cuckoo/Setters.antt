-- ===== src/Options/Table/Cuckoo/Setters.antt =====
-- The setters of `CuckooTableOptions` of plain values, as a `Builder`.
use rust_rocks.Common.{ℕ, ◌≡◌, refl, Bool, List, [], ◌∷◌}
use rust_rocks.Ffi.{done, M, and_then, alloc}
use rust_rocks.Options.Struct.{Value, Settings}
use rust_rocks.Options.Objects.{OptionsWorld, cuckoo_kind}
use rust_rocks.Options.Fields.{CuckooField}
use rust_rocks.Options.Chain.{Builder}
use rust_rocks.Options.Assign.{IsPlainScript-all, assign_all, assign_one, assign_flag}
use rust_rocks.Options.Table.Cuckoo
use rust_rocks.Options.Table.Cuckoo.{CuckooTableOptions, default}

-- The setters of plain values, with their arguments.
pub data CuckooSetter : Type 0 where
  identity_as_first_hash : Bool → CuckooSetter
  use_module_hash : Bool → CuckooSetter
  hash_table_ratio : ℕ → CuckooSetter
  max_search_depth : ℕ → CuckooSetter
  cuckoo_block_size : ℕ → CuckooSetter

unfoldable pub apply : CuckooSetter → CuckooTableOptions → M OptionsWorld CuckooTableOptions
unfolding Cuckoo.identity_as_first_hash Cuckoo.use_module_hash Cuckoo.hash_table_ratio
    Cuckoo.max_search_depth Cuckoo.cuckoo_block_size
apply (CuckooSetter.identity_as_first_hash v) o = Cuckoo.identity_as_first_hash o v
apply (CuckooSetter.use_module_hash v) o = Cuckoo.use_module_hash o v
apply (CuckooSetter.hash_table_ratio v) o = Cuckoo.hash_table_ratio o v
apply (CuckooSetter.max_search_depth v) o = Cuckoo.max_search_depth o v
apply (CuckooSetter.cuckoo_block_size v) o = Cuckoo.cuckoo_block_size o v

-- The members that each setter is to assign.
unfoldable pub effects : CuckooSetter → List (CuckooField × Value)
effects (CuckooSetter.identity_as_first_hash v) =
    (CuckooField.identity_as_first_hash, Value.flag v) ∷ []
effects (CuckooSetter.use_module_hash v) = (CuckooField.use_module_hash, Value.flag v) ∷ []
effects (CuckooSetter.hash_table_ratio v) = (CuckooField.hash_table_ratio, Value.number v) ∷ []
effects (CuckooSetter.max_search_depth v) = (CuckooField.max_search_depth, Value.number v) ∷ []
effects (CuckooSetter.cuckoo_block_size v) = (CuckooField.cuckoo_block_size, Value.number v) ∷ []

pub apply-assigns :
    (s : CuckooSetter) (o : CuckooTableOptions) (w : OptionsWorld)
    → apply s o w ≡ and_then (assign_all cuckoo_kind (effects s) o.raw w) (λ _ w'. done o w')
unfolding apply effects
apply-assigns (CuckooSetter.identity_as_first_hash v) o w =
    assign_flag cuckoo_kind CuckooField.identity_as_first_hash v o.raw o w
apply-assigns (CuckooSetter.use_module_hash v) o w =
    assign_flag cuckoo_kind CuckooField.use_module_hash v o.raw o w
apply-assigns (CuckooSetter.hash_table_ratio v) o w =
    assign_one cuckoo_kind CuckooField.hash_table_ratio (Value.number v) o.raw o w
apply-assigns (CuckooSetter.max_search_depth v) o w =
    assign_one cuckoo_kind CuckooField.max_search_depth (Value.number v) o.raw o w
apply-assigns (CuckooSetter.cuckoo_block_size v) o w =
    assign_one cuckoo_kind CuckooField.cuckoo_block_size (Value.number v) o.raw o w

pub default-alloc :
    (d : Settings CuckooField) (w : OptionsWorld)
    → default d w ≡ and_then (alloc (cuckoo_kind.wrap d) w) (λ p w'. done (record { raw = p }) w')
unfolding default
default-alloc d w = refl

abbrev pub cuckoo_builder : Builder cuckoo_kind (Unit {0}) CuckooTableOptions CuckooSetter
cuckoo_builder = record {
  raw = λ o. o.raw;
  from_raw = λ p. record { raw = p };
  raw-from_raw = λ _. refl;
  default = default;
  default-alloc = default-alloc;
  apply = apply;
  effects = effects;
  effects-plain = λ s. IsPlainScript-all cuckoo_kind (λ _. refl) _;
  apply-assigns = apply-assigns;
}
