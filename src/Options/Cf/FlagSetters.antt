-- ===== src/Options/Cf/FlagSetters.antt =====
-- The setters of `ColumnFamilyOptions` that take flags, as a family: the member that each assigns.
use rust_rocks.Common.{◌≡◌, refl, Bool, to_u8}
use rust_rocks.Ffi.{done, M, and_then}
use rust_rocks.Options.Struct.{set_member, flag_of}
use rust_rocks.Options.Objects.{OptionsWorld, cf_kind}
use rust_rocks.Options.Fields.{CfField}
use rust_rocks.Options.Cf.Object.{CfOptions}
use rust_rocks.Options.Cf.Flags

pub data CfFlag : Type 0 where
  disable_auto_compactions inplace_update_support level_compaction_dynamic_level_bytes : CfFlag
  optimize_filters_for_hits paranoid_file_checks force_consistency_checks : CfFlag
  report_bg_io_stats : CfFlag

unfoldable pub flag_member : CfFlag → CfField
flag_member CfFlag.disable_auto_compactions = CfField.disable_auto_compactions
flag_member CfFlag.inplace_update_support = CfField.inplace_update_support
flag_member CfFlag.level_compaction_dynamic_level_bytes =
    CfField.level_compaction_dynamic_level_bytes
flag_member CfFlag.optimize_filters_for_hits = CfField.optimize_filters_for_hits
flag_member CfFlag.paranoid_file_checks = CfField.paranoid_file_checks
flag_member CfFlag.force_consistency_checks = CfField.force_consistency_checks
flag_member CfFlag.report_bg_io_stats = CfField.report_bg_io_stats

unfoldable pub apply_flag : CfFlag → CfOptions → Bool → M OptionsWorld CfOptions
unfolding Flags.disable_auto_compactions Flags.inplace_update_support
    Flags.level_compaction_dynamic_level_bytes Flags.optimize_filters_for_hits
    Flags.paranoid_file_checks Flags.force_consistency_checks Flags.report_bg_io_stats
apply_flag CfFlag.disable_auto_compactions o v = Flags.disable_auto_compactions o v
apply_flag CfFlag.inplace_update_support o v = Flags.inplace_update_support o v
apply_flag CfFlag.level_compaction_dynamic_level_bytes o v =
    Flags.level_compaction_dynamic_level_bytes o v
apply_flag CfFlag.optimize_filters_for_hits o v = Flags.optimize_filters_for_hits o v
apply_flag CfFlag.paranoid_file_checks o v = Flags.paranoid_file_checks o v
apply_flag CfFlag.force_consistency_checks o v = Flags.force_consistency_checks o v
apply_flag CfFlag.report_bg_io_stats o v = Flags.report_bg_io_stats o v

pub apply_flag-member :
    (m : CfFlag) (o : CfOptions) (v : Bool) (w : OptionsWorld)
    → apply_flag m o v w
      ≡ and_then
          (set_member cf_kind o.raw (flag_member m) (flag_of (to_u8 v)) w)
          (λ _ w'. done o w')
unfolding apply_flag flag_member
apply_flag-member CfFlag.disable_auto_compactions o v w = refl
apply_flag-member _ o v w = refl
