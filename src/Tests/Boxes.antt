-- ===== src/Tests/Boxes.antt =====
-- Tests of Options: who owns the box of a trait object once options have been copied and released.
use rust_rocks.Common.{zero, suc, ◌≡◌, true, Option, none, some, arith}
use rust_rocks.Ffi.{Ptr, Outcome, done}
use rust_rocks.Options.Struct.{Value, read_struct, set_member, Settings, number}
use rust_rocks.Options.Fields.{CfField}
use rust_rocks.Options.Objects.{
  OptionsObject, OptionsWorld, options, shared_object, cf_boxes, db_boxes,
}
use rust_rocks.Tests.Choices.{zeros}
use rust_rocks.Options.Cf.Flags as CfFlags
use rust_rocks.Options.Cf.Others as CfOthers
use rust_rocks.Options.Whole.{map_cf_options}

-- Options whose prefix extractor is a boxed one.
abbrev with_box : Settings CfField
with_box CfField.prefix_extractor = Value.wrapped 2
with_box _ = number 0

abbrev boxed_cells : Ptr → Option OptionsObject
boxed_cells (suc zero) = some (options zeros with_box)
boxed_cells (suc (suc zero)) = some (shared_object 1 8)
boxed_cells _ = none

abbrev boxed_world : OptionsWorld
boxed_world = record { heap = record { next = 3; cell = boxed_cells }; state = tt }

abbrev cell_after : {A : Type 0} → Outcome OptionsWorld A → Ptr → Option OptionsObject
cell_after (done a w) p = w.heap.cell p
cell_after _ p = none

-- The mapped options share the box of the old ones, which are released.
box_shared :
    cell_after
      (map_cf_options
        (record { raw = 1 })
        (λ o. CfFlags.disable_auto_compactions o true)
        boxed_world)
      2
    ≡ some (shared_object 1 8)
unfolding map_cf_options CfFlags.disable_auto_compactions set_member read_struct cf_boxes db_boxes
box_shared = ground arith

-- A prefix extractor that replaces it releases the box.
box_released :
    cell_after
      (map_cf_options (record { raw = 1 }) (λ o. CfOthers.prefix_extractor_noop o) boxed_world)
      2
    ≡ none
unfolding map_cf_options CfOthers.prefix_extractor_noop set_member read_struct cf_boxes db_boxes
box_released = ground arith
