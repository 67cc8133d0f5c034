-- ===== src/Options/Plain.antt =====
-- Options whose members own no box of a Rust trait object: what `delete` of rocks-sys/rocks/options.cc
-- does to them.
use rust_rocks.Common.{◌≡◌, some, [], arith}
use rust_rocks.Ffi.{free}
use rust_rocks.Options.Struct.{Settings, IsPlain, read_struct}
use rust_rocks.Options.Fields.{DbField, CfField}
use rust_rocks.Options.Objects.{
  OptionsWorld, db_kind, cf_kind, dboptions, cfoptions, db_boxes, cf_boxes,
}
use rust_rocks.Options.Db.Object as DbObject
use rust_rocks.Options.Cf.Object as CfObject

pub db_boxes-nil : (s : Settings DbField) → IsPlain db_kind s → db_boxes s ≡ []
unfolding db_boxes
db_boxes-nil s plain = plain DbField.listeners

pub cf_boxes-nil : (s : Settings CfField) → IsPlain cf_kind s → cf_boxes s ≡ []
unfolding cf_boxes
cf_boxes-nil s plain = ground (
  arith,
  plain CfField.merge_operator,
  plain CfField.prefix_extractor,
  plain CfField.memtable_insert_with_hint_prefix_extractor,
  plain CfField.table_properties_collector_factories,
)

pub db_drop-free :
    (o : DbObject.DbOptions) (s : Settings DbField) (w : OptionsWorld)
    → w.heap.cell o.raw ≡ some (dboptions s)
    → IsPlain db_kind s
    → DbObject.drop_options o w ≡ free o.raw w
unfolding DbObject.drop_options read_struct
db_drop-free o s w here plain = ground (arith, here, db_boxes-nil s plain)

pub cf_drop-free :
    (o : CfObject.CfOptions) (s : Settings CfField) (w : OptionsWorld)
    → w.heap.cell o.raw ≡ some (cfoptions s)
    → IsPlain cf_kind s
    → CfObject.drop_options o w ≡ free o.raw w
unfolding CfObject.drop_options read_struct
cf_drop-free o s w here plain = ground (arith, here, cf_boxes-nil s plain)
