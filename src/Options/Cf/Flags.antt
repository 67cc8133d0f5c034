-- ===== src/Options/Cf/Flags.antt =====
-- src/options.rs: the setters of `ColumnFamilyOptions` that take flags.
use rust_rocks.Common.{Bool, to_u8}
use rust_rocks.Ffi.{M, pure, ◌>>◌}
use rust_rocks.Options.Objects.{OptionsWorld}
use rust_rocks.Options.Cf.Object.{CfOptions}
use rust_rocks.Options.Cf.FlagGlue

unfoldable pub disable_auto_compactions : CfOptions → Bool → M OptionsWorld CfOptions
unfolding FlagGlue.rocks_cfoptions_set_disable_auto_compactions
disable_auto_compactions self val = do
  FlagGlue.rocks_cfoptions_set_disable_auto_compactions self.raw (to_u8 val)
  pure self

unfoldable pub inplace_update_support : CfOptions → Bool → M OptionsWorld CfOptions
unfolding FlagGlue.rocks_cfoptions_set_inplace_update_support
inplace_update_support self val = do
  FlagGlue.rocks_cfoptions_set_inplace_update_support self.raw (to_u8 val)
  pure self

unfoldable pub level_compaction_dynamic_level_bytes : CfOptions → Bool → M OptionsWorld CfOptions
unfolding FlagGlue.rocks_cfoptions_set_level_compaction_dynamic_level_bytes
level_compaction_dynamic_level_bytes self val = do
  FlagGlue.rocks_cfoptions_set_level_compaction_dynamic_level_bytes self.raw (to_u8 val)
  pure self

unfoldable pub optimize_filters_for_hits : CfOptions → Bool → M OptionsWorld CfOptions
unfolding FlagGlue.rocks_cfoptions_set_optimize_filters_for_hits
optimize_filters_for_hits self val = do
  FlagGlue.rocks_cfoptions_set_optimize_filters_for_hits self.raw (to_u8 val)
  pure self

unfoldable pub paranoid_file_checks : CfOptions → Bool → M OptionsWorld CfOptions
unfolding FlagGlue.rocks_cfoptions_set_paranoid_file_checks
paranoid_file_checks self val = do
  FlagGlue.rocks_cfoptions_set_paranoid_file_checks self.raw (to_u8 val)
  pure self

unfoldable pub force_consistency_checks : CfOptions → Bool → M OptionsWorld CfOptions
unfolding FlagGlue.rocks_cfoptions_set_force_consistency_checks
force_consistency_checks self val = do
  FlagGlue.rocks_cfoptions_set_force_consistency_checks self.raw (to_u8 val)
  pure self

unfoldable pub report_bg_io_stats : CfOptions → Bool → M OptionsWorld CfOptions
unfolding FlagGlue.rocks_cfoptions_set_report_bg_io_stats
report_bg_io_stats self val = do
  FlagGlue.rocks_cfoptions_set_report_bg_io_stats self.raw (to_u8 val)
  pure self
