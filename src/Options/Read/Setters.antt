-- ===== src/Options/Read/Setters.antt =====
-- The setters of `ReadOptions` of plain values, as a `Builder`.
use rust_rocks.Common.{ℕ, ◌≡◌, refl, ◌∙◌, Bool, List, [], ◌∷◌, to_u8}
use rust_rocks.Ffi.{done, M, and_then, alloc}
use rust_rocks.Options.Struct.{Value, Settings, set_member, flag_of}
use rust_rocks.Options.Objects.{OptionsWorld, read_kind}
use rust_rocks.Options.Fields.{ReadField}
use rust_rocks.Options.Enums.{ReadTier, read_tier_to_int}
use rust_rocks.Options.Chain.{Builder}
use rust_rocks.Options.Assign.{IsPlainScript-all, assign_all, assign_one, assign_flag}
use rust_rocks.Options.Read
use rust_rocks.Options.Read.{ReadOptions, default}

pub data ReadFlag : Type 0 where
  verify_checksums fill_cache tailing managed total_order_seek prefix_same_as_start : ReadFlag
  pin_data background_purge_on_iterator_cleanup ignore_range_deletions : ReadFlag

unfoldable pub flag_member : ReadFlag → ReadField
flag_member ReadFlag.verify_checksums = ReadField.verify_checksums
flag_member ReadFlag.fill_cache = ReadField.fill_cache
flag_member ReadFlag.tailing = ReadField.tailing
flag_member ReadFlag.managed = ReadField.managed
flag_member ReadFlag.total_order_seek = ReadField.total_order_seek
flag_member ReadFlag.prefix_same_as_start = ReadField.prefix_same_as_start
flag_member ReadFlag.pin_data = ReadField.pin_data
flag_member ReadFlag.background_purge_on_iterator_cleanup =
    ReadField.background_purge_on_iterator_cleanup
flag_member ReadFlag.ignore_range_deletions = ReadField.ignore_range_deletions

unfoldable pub apply_flag : ReadFlag → ReadOptions → Bool → M OptionsWorld ReadOptions
unfolding Read.verify_checksums Read.fill_cache Read.tailing Read.managed Read.total_order_seek
    Read.prefix_same_as_start Read.pin_data Read.background_purge_on_iterator_cleanup
    Read.ignore_range_deletions
apply_flag ReadFlag.verify_checksums o v = Read.verify_checksums o v
apply_flag ReadFlag.fill_cache o v = Read.fill_cache o v
apply_flag ReadFlag.tailing o v = Read.tailing o v
apply_flag ReadFlag.managed o v = Read.managed o v
apply_flag ReadFlag.total_order_seek o v = Read.total_order_seek o v
apply_flag ReadFlag.prefix_same_as_start o v = Read.prefix_same_as_start o v
apply_flag ReadFlag.pin_data o v = Read.pin_data o v
apply_flag ReadFlag.background_purge_on_iterator_cleanup o v =
    Read.background_purge_on_iterator_cleanup o v
apply_flag ReadFlag.ignore_range_deletions o v = Read.ignore_range_deletions o v

pub apply_flag-member :
    (m : ReadFlag) (o : ReadOptions) (v : Bool) (w : OptionsWorld)
    → apply_flag m o v w
      ≡ and_then
          (set_member read_kind o.raw (flag_member m) (flag_of (to_u8 v)) w)
          (λ _ w'. done o w')
unfolding apply_flag flag_member
apply_flag-member ReadFlag.verify_checksums o v w = refl
apply_flag-member _ o v w = refl

-- The setters of plain values, with their arguments.
pub data ReadSetter : Type 0 where
  flag : ReadFlag → Bool → ReadSetter
  readahead_size : ℕ → ReadSetter
  max_skippable_internal_keys : ℕ → ReadSetter
  read_tier : ReadTier → ReadSetter

unfoldable pub apply : ReadSetter → ReadOptions → M OptionsWorld ReadOptions
unfolding apply_flag Read.readahead_size Read.max_skippable_internal_keys Read.read_tier
apply (ReadSetter.flag m v) o = apply_flag m o v
apply (ReadSetter.readahead_size v) o = Read.readahead_size o v
apply (ReadSetter.max_skippable_internal_keys v) o = Read.max_skippable_internal_keys o v
apply (ReadSetter.read_tier v) o = Read.read_tier o v

-- The members that each setter is to assign.
unfoldable pub effects : ReadSetter → List (ReadField × Value)
unfolding flag_member read_tier_to_int
effects (ReadSetter.flag m v) = (flag_member m, Value.flag v) ∷ []
effects (ReadSetter.readahead_size v) = (ReadField.readahead_size, Value.number v) ∷ []
effects (ReadSetter.max_skippable_internal_keys v) =
    (ReadField.max_skippable_internal_keys, Value.number v) ∷ []
effects (ReadSetter.read_tier v) = (ReadField.read_tier, Value.number (read_tier_to_int v)) ∷ []

pub apply-assigns :
    (s : ReadSetter) (o : ReadOptions) (w : OptionsWorld)
    → apply s o w ≡ and_then (assign_all read_kind (effects s) o.raw w) (λ _ w'. done o w')
unfolding apply effects
apply-assigns (ReadSetter.flag m v) o w =
    apply_flag-member m o v w ∙ assign_flag read_kind (flag_member m) v o.raw o w
apply-assigns (ReadSetter.readahead_size v) o w =
    assign_one read_kind ReadField.readahead_size (Value.number v) o.raw o w
apply-assigns (ReadSetter.max_skippable_internal_keys v) o w =
    assign_one read_kind ReadField.max_skippable_internal_keys (Value.number v) o.raw o w
apply-assigns (ReadSetter.read_tier v) o w =
    assign_one read_kind ReadField.read_tier (Value.number (read_tier_to_int v)) o.raw o w

pub default-alloc :
    (d : Settings ReadField) (w : OptionsWorld)
    → default d w ≡ and_then (alloc (read_kind.wrap d) w) (λ p w'. done (record { raw = p }) w')
unfolding default
default-alloc d w = refl

abbrev pub read_builder : Builder read_kind (Unit {0}) ReadOptions ReadSetter
read_builder = record {
  raw = λ o. o.raw;
  from_raw = λ p. record { raw = p };
  raw-from_raw = λ _. refl;
  default = default;
  default-alloc = default-alloc;
  apply = apply;
  effects = effects;
  effects-plain = λ s. IsPlainScript-all read_kind (λ _. refl) _;
  apply-assigns = apply-assigns;
}
