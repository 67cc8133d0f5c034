-- ===== src/Options/Cf/FlagGlue.antt =====
-- rocks-sys/rocks/options.cc: the functions that assign flags to members of `ColumnFamilyOptions`.
use rust_rocks.Common.{ℕ}
use rust_rocks.Ffi.{Ptr, M}
use rust_rocks.Options.Struct.{set_member, flag_of}
use rust_rocks.Options.Objects.{OptionsWorld, cf_kind}
use rust_rocks.Options.Fields.{CfField}

unfoldable pub rocks_cfoptions_set_disable_auto_compactions : Ptr → ℕ → M OptionsWorld (Unit {0})
rocks_cfoptions_set_disable_auto_compactions opt v =
    set_member cf_kind opt CfField.disable_auto_compactions (flag_of v)

unfoldable pub rocks_cfoptions_set_inplace_update_support : Ptr → ℕ → M OptionsWorld (Unit {0})
rocks_cfoptions_set_inplace_update_support opt v =
    set_member cf_kind opt CfField.inplace_update_support (flag_of v)

unfoldable pub rocks_cfoptions_set_level_compaction_dynamic_level_bytes :
    Ptr → ℕ → M OptionsWorld (Unit {0})
rocks_cfoptions_set_level_compaction_dynamic_level_bytes opt v =
    set_member cf_kind opt CfField.level_compaction_dynamic_level_bytes (flag_of v)

unfoldable pub rocks_cfoptions_set_optimize_filters_for_hits : Ptr → ℕ → M OptionsWorld (Unit {0})
rocks_cfoptions_set_optimize_filters_for_hits opt v =
    set_member cf_kind opt CfField.optimize_filters_for_hits (flag_of v)

unfoldable pub rocks_cfoptions_set_paranoid_file_checks : Ptr → ℕ → M OptionsWorld (Unit {0})
rocks_cfoptions_set_paranoid_file_checks opt v =
    set_member cf_kind opt CfField.paranoid_file_checks (flag_of v)

unfoldable pub rocks_cfoptions_set_force_consistency_checks : Ptr → ℕ → M OptionsWorld (Unit {0})
rocks_cfoptions_set_force_consistency_checks opt v =
    set_member cf_kind opt CfField.force_consistency_checks (flag_of v)

unfoldable pub rocks_cfoptions_set_report_bg_io_stats : Ptr → ℕ → M OptionsWorld (Unit {0})
rocks_cfoptions_set_report_bg_io_stats opt v =
    set_member cf_kind opt CfField.report_bg_io_stats (flag_of v)
