-- ===== src/Options/Db/Setters.antt =====
-- The setters of `DBOptions` of plain values, as a `Builder`.
use rust_rocks.Common.{ℕ, ◌≡◌, refl, ap, ◌∙◌, Bool, some, List, [], ◌∷◌, Bytes, take-length}
use rust_rocks.Ffi.{done, M, and_then, alloc}
use rust_rocks.Options.Struct.{Value, Settings, set_member, only-nil}
use rust_rocks.Options.Objects.{OptionsWorld, db_kind}
use rust_rocks.Options.Fields.{DbField}
use rust_rocks.Options.Enums.{
  WalRecoveryMode, wal_recovery_mode_to_int, AccessHint, access_hint_to_int, InfoLogLevel,
  info_log_level_to_int,
}
use rust_rocks.Options.Chain.{Builder}
use rust_rocks.Options.Assign.{IsPlainScript, assign_all, assign_one, assign_flag}
use rust_rocks.Options.Db.Object.{DbOptions, default}
use rust_rocks.Options.Db.Numbers
use rust_rocks.Options.Db.Others
use rust_rocks.Options.Db.FlagSetters.{DbFlag, flag_member, apply_flag, apply_flag-member}
use rust_rocks.Options.Db.NumberSetters.{DbNumber, number_member, apply_number, apply_number-member}

-- The setters of plain values, with their arguments; `create_missing_column_families` is not one of
-- them.
pub data DbSetter : Type 0 where
  flag : DbFlag → Bool → DbSetter
  number : DbNumber → ℕ → DbSetter
  info_log_level : InfoLogLevel → DbSetter
  wal_recovery_mode : WalRecoveryMode → DbSetter
  access_hint_on_compaction_start : AccessHint → DbSetter
  db_log_dir : Bytes → DbSetter
  wal_dir : Bytes → DbSetter

unfoldable pub apply : DbSetter → DbOptions → M OptionsWorld DbOptions
unfolding apply_flag apply_number Numbers.info_log_level Numbers.wal_recovery_mode
    Others.access_hint_on_compaction_start Others.db_log_dir Others.wal_dir
apply (DbSetter.flag m v) o = apply_flag m o v
apply (DbSetter.number m v) o = apply_number m o v
apply (DbSetter.info_log_level v) o = Numbers.info_log_level o v
apply (DbSetter.wal_recovery_mode v) o = Numbers.wal_recovery_mode o v
apply (DbSetter.access_hint_on_compaction_start v) o = Others.access_hint_on_compaction_start o v
apply (DbSetter.db_log_dir v) o = Others.db_log_dir o (some v)
apply (DbSetter.wal_dir v) o = Others.wal_dir o (some v)

-- The members that each setter is to assign.
unfoldable pub effects : DbSetter → List (DbField × Value)
unfolding flag_member number_member access_hint_to_int info_log_level_to_int
    wal_recovery_mode_to_int
effects (DbSetter.flag m v) = (flag_member m, Value.flag v) ∷ []
effects (DbSetter.number m v) = (number_member m, Value.number v) ∷ []
effects (DbSetter.info_log_level v) =
    (DbField.info_log_level, Value.number (info_log_level_to_int v)) ∷ []
effects (DbSetter.wal_recovery_mode v) =
    (DbField.wal_recovery_mode, Value.number (wal_recovery_mode_to_int v)) ∷ []
effects (DbSetter.access_hint_on_compaction_start v) =
    (DbField.access_hint_on_compaction_start, Value.number (access_hint_to_int v)) ∷ []
effects (DbSetter.db_log_dir v) = (DbField.db_log_dir, Value.text v) ∷ []
effects (DbSetter.wal_dir v) = (DbField.wal_dir, Value.text v) ∷ []

-- No setter of plain values assigns a box.
pub effects-plain : (s : DbSetter) → IsPlainScript db_kind (effects s)
unfolding effects
effects-plain (DbSetter.flag m v) = (only-nil (db_kind.owns (flag_member m)), tt)
effects-plain (DbSetter.number m v) = (only-nil (db_kind.owns (number_member m)), tt)
effects-plain (DbSetter.info_log_level a) = (refl, tt)
effects-plain (DbSetter.wal_recovery_mode a) = (refl, tt)
effects-plain (DbSetter.access_hint_on_compaction_start a) = (refl, tt)
effects-plain (DbSetter.db_log_dir a) = (refl, tt)
effects-plain (DbSetter.wal_dir a) = (refl, tt)

pub apply-assigns :
    (s : DbSetter) (o : DbOptions) (w : OptionsWorld)
    → apply s o w ≡ and_then (assign_all db_kind (effects s) o.raw w) (λ _ w'. done o w')
unfolding apply effects
apply-assigns (DbSetter.flag m v) o w =
    apply_flag-member m o v w ∙ assign_flag db_kind (flag_member m) v o.raw o w
apply-assigns (DbSetter.number m v) o w =
    apply_number-member m o v w ∙ assign_one db_kind (number_member m) (Value.number v) o.raw o w
apply-assigns (DbSetter.info_log_level v) o w =
    assign_one db_kind DbField.info_log_level (Value.number (info_log_level_to_int v)) o.raw o w
apply-assigns (DbSetter.wal_recovery_mode v) o w =
    assign_one db_kind DbField.wal_recovery_mode (Value.number (wal_recovery_mode_to_int v)) o.raw o
      w
apply-assigns (DbSetter.access_hint_on_compaction_start AccessHint.none) o w =
    assign_one db_kind DbField.access_hint_on_compaction_start (Value.number 0) o.raw o w
apply-assigns (DbSetter.access_hint_on_compaction_start AccessHint.normal) o w =
    assign_one db_kind DbField.access_hint_on_compaction_start (Value.number 1) o.raw o w
apply-assigns (DbSetter.access_hint_on_compaction_start AccessHint.sequential) o w =
    assign_one db_kind DbField.access_hint_on_compaction_start (Value.number 2) o.raw o w
apply-assigns (DbSetter.access_hint_on_compaction_start AccessHint.will_need) o w =
    assign_one db_kind DbField.access_hint_on_compaction_start (Value.number 3) o.raw o w
apply-assigns (DbSetter.db_log_dir v) o w =
    ap
      (λ u.
        and_then (set_member db_kind o.raw DbField.db_log_dir (Value.text u) w) (λ _ w'. done o w'))
      (take-length v)
    ∙ assign_one db_kind DbField.db_log_dir (Value.text v) o.raw o w
apply-assigns (DbSetter.wal_dir v) o w =
    ap
      (λ u.
        and_then (set_member db_kind o.raw DbField.wal_dir (Value.text u) w) (λ _ w'. done o w'))
      (take-length v)
    ∙ assign_one db_kind DbField.wal_dir (Value.text v) o.raw o w

pub default-alloc :
    (d : Settings DbField) (w : OptionsWorld)
    → default d w ≡ and_then (alloc (db_kind.wrap d) w) (λ p w'. done (record { raw = p }) w')
unfolding default
default-alloc d w = refl

abbrev pub db_builder : Builder db_kind (Unit {0}) DbOptions DbSetter
db_builder = record {
  raw = λ o. o.raw;
  from_raw = λ p. record { raw = p };
  raw-from_raw = λ _. refl;
  default = default;
  default-alloc = default-alloc;
  apply = apply;
  effects = effects;
  effects-plain = effects-plain;
  apply-assigns = apply-assigns;
}
