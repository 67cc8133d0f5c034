-- ===== src/Options/Table/Plain/Setters.antt =====
-- The setters of `PlainTableOptions` of plain values, as a `Builder`.
use rust_rocks.Common.{ℕ, ◌≡◌, refl, Bool, List, [], ◌∷◌}
use rust_rocks.Ffi.{done, M, and_then, alloc}
use rust_rocks.Options.Struct.{Value, Settings}
use rust_rocks.Options.Objects.{OptionsWorld, plain_kind}
use rust_rocks.Options.Fields.{PlainField}
use rust_rocks.Options.Enums.{EncodingType, encoding_type_to_int}
use rust_rocks.Options.Chain.{Builder}
use rust_rocks.Options.Assign.{IsPlainScript-all, assign_all, assign_one, assign_flag}
use rust_rocks.Options.Table.Plain
use rust_rocks.Options.Table.Plain.{PlainTableOptions, default}

-- The setters of plain values, with their arguments.
pub data PlainSetter : Type 0 where
  full_scan_mode : Bool → PlainSetter
  store_index_in_file : Bool → PlainSetter
  user_key_len : ℕ → PlainSetter
  bloom_bits_per_key : ℕ → PlainSetter
  hash_table_ratio : ℕ → PlainSetter
  index_sparseness : ℕ → PlainSetter
  huge_page_tlb_size : ℕ → PlainSetter
  encoding_type : EncodingType → PlainSetter

unfoldable pub apply : PlainSetter → PlainTableOptions → M OptionsWorld PlainTableOptions
unfolding Plain.full_scan_mode Plain.store_index_in_file Plain.user_key_len Plain.bloom_bits_per_key
    Plain.hash_table_ratio Plain.index_sparseness Plain.huge_page_tlb_size Plain.encoding_type
apply (PlainSetter.full_scan_mode v) o = Plain.full_scan_mode o v
apply (PlainSetter.store_index_in_file v) o = Plain.store_index_in_file o v
apply (PlainSetter.user_key_len v) o = Plain.user_key_len o v
apply (PlainSetter.bloom_bits_per_key v) o = Plain.bloom_bits_per_key o v
apply (PlainSetter.hash_table_ratio v) o = Plain.hash_table_ratio o v
apply (PlainSetter.index_sparseness v) o = Plain.index_sparseness o v
apply (PlainSetter.huge_page_tlb_size v) o = Plain.huge_page_tlb_size o v
apply (PlainSetter.encoding_type v) o = Plain.encoding_type o v

-- The members that each setter is to assign.
unfoldable pub effects : PlainSetter → List (PlainField × Value)
unfolding encoding_type_to_int
effects (PlainSetter.full_scan_mode v) = (PlainField.full_scan_mode, Value.flag v) ∷ []
effects (PlainSetter.store_index_in_file v) = (PlainField.store_index_in_file, Value.flag v) ∷ []
effects (PlainSetter.user_key_len v) = (PlainField.user_key_len, Value.number v) ∷ []
effects (PlainSetter.bloom_bits_per_key v) = (PlainField.bloom_bits_per_key, Value.number v) ∷ []
effects (PlainSetter.hash_table_ratio v) = (PlainField.hash_table_ratio, Value.number v) ∷ []
effects (PlainSetter.index_sparseness v) = (PlainField.index_sparseness, Value.number v) ∷ []
effects (PlainSetter.huge_page_tlb_size v) = (PlainField.huge_page_tlb_size, Value.number v) ∷ []
effects (PlainSetter.encoding_type v) =
    (PlainField.encoding_type, Value.number (encoding_type_to_int v)) ∷ []

pub apply-assigns :
    (s : PlainSetter) (o : PlainTableOptions) (w : OptionsWorld)
    → apply s o w ≡ and_then (assign_all plain_kind (effects s) o.raw w) (λ _ w'. done o w')
unfolding apply effects
apply-assigns (PlainSetter.full_scan_mode v) o w =
    assign_flag plain_kind PlainField.full_scan_mode v o.raw o w
apply-assigns (PlainSetter.store_index_in_file v) o w =
    assign_flag plain_kind PlainField.store_index_in_file v o.raw o w
apply-assigns (PlainSetter.user_key_len v) o w =
    assign_one plain_kind PlainField.user_key_len (Value.number v) o.raw o w
apply-assigns (PlainSetter.bloom_bits_per_key v) o w =
    assign_one plain_kind PlainField.bloom_bits_per_key (Value.number v) o.raw o w
apply-assigns (PlainSetter.hash_table_ratio v) o w =
    assign_one plain_kind PlainField.hash_table_ratio (Value.number v) o.raw o w
apply-assigns (PlainSetter.index_sparseness v) o w =
    assign_one plain_kind PlainField.index_sparseness (Value.number v) o.raw o w
apply-assigns (PlainSetter.huge_page_tlb_size v) o w =
    assign_one plain_kind PlainField.huge_page_tlb_size (Value.number v) o.raw o w
apply-assigns (PlainSetter.encoding_type v) o w =
    assign_one plain_kind PlainField.encoding_type (Value.number (encoding_type_to_int v)) o.raw o w

pub default-alloc :
    (d : Settings PlainField) (w : OptionsWorld)
    → default d w ≡ and_then (alloc (plain_kind.wrap d) w) (λ p w'. done (record { raw = p }) w')
unfolding default
default-alloc d w = refl

abbrev pub plain_builder : Builder plain_kind (Unit {0}) PlainTableOptions PlainSetter
plain_builder = record {
  raw = λ o. o.raw;
  from_raw = λ p. record { raw = p };
  raw-from_raw = λ _. refl;
  default = default;
  default-alloc = default-alloc;
  apply = apply;
  effects = effects;
  effects-plain = λ s. IsPlainScript-all plain_kind (λ _. refl) _;
  apply-assigns = apply-assigns;
}
