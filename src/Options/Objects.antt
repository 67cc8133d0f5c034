-- ===== src/Options/Objects.antt =====
-- The native objects behind the options (the structs of rocks-sys/rocks/ctypes.hpp), and which of
-- them each options type points to.
use rust_rocks.Common.{
  ℕ, zero, suc, refl, Bool, true, false, Option, none, some, List, [], ◌∷◌, ◌++◌,
}
use rust_rocks.Ffi.{World, Ptr, M, done, fault, load, store, pure, ◌>>=◌, ◌>>◌}
use rust_rocks.Options.Struct.{Settings, Kind, boxes}
use rust_rocks.Options.Fields.{
  DbField, DbField-discrete, CfField, CfField-discrete, ReadField, ReadField-discrete, WriteField,
  WriteField-discrete, FlushField, FlushField-discrete, CompactionField, CompactionField-discrete,
  CompactRangeField, CompactRangeField-discrete, IngestField, IngestField-discrete, BlockField,
  BlockField-discrete, PlainField, PlainField-discrete, CuckooField, CuckooField-discrete,
  UniversalField, UniversalField-discrete, FifoField, FifoField-discrete,
}

pub data OptionsObject : Type 0 where
  -- rocks_dboptions_t
  dboptions : Settings DbField → OptionsObject
  -- rocks_cfoptions_t
  cfoptions : Settings CfField → OptionsObject
  -- rocks_readoptions_t
  readoptions : Settings ReadField → OptionsObject
  -- rocks_writeoptions_t
  writeoptions : Settings WriteField → OptionsObject
  -- rocks_flushoptions_t
  flushoptions : Settings FlushField → OptionsObject
  -- rocks_compaction_options_t
  compaction_options : Settings CompactionField → OptionsObject
  -- rocks_compactrange_options_t
  compactrange_options : Settings CompactRangeField → OptionsObject
  -- rocks_ingestexternalfile_options_t
  ingestexternalfile_options : Settings IngestField → OptionsObject
  -- rocks_block_based_table_options_t
  block_based_table_options : Settings BlockField → OptionsObject
  -- rocks_plain_table_options_t
  plain_table_options : Settings PlainField → OptionsObject
  -- rocks_cuckoo_table_options_t
  cuckoo_table_options : Settings CuckooField → OptionsObject
  -- rocks_universal_compaction_options_t
  universal_compaction_options : Settings UniversalField → OptionsObject
  -- rocks_fifo_compaction_options_t
  fifo_compaction_options : Settings FifoField → OptionsObject
  -- rocks_options_t: `Options` is a `DBOptions` and a `ColumnFamilyOptions`
  options : Settings DbField → Settings CfField → OptionsObject
  -- a `rocks_*_t` whose `rep` is a pointer, plain or shared: caches, loggers, limiters, snapshots
  holder : Option ℕ → OptionsObject
  -- the `Box` of a Rust trait object
  trait_object : ℕ → OptionsObject
  -- the same, in a native object that so many shared pointers own
  shared_object : ℕ → ℕ → OptionsObject

abbrev pub OptionsWorld : Type 0
OptionsWorld = World OptionsObject (Unit {0})

abbrev pub expect_holder : OptionsObject → M OptionsWorld (Option ℕ)
expect_holder (holder rep) w = done rep w
expect_holder _ w = fault

-- `p->rep`
unfoldable pub read_holder : Ptr → M OptionsWorld (Option ℕ)
read_holder p = load p >>= expect_holder

-- `std::shared_ptr` of a new native object around the box at `p`
abbrev pub owned_box : OptionsObject → M OptionsWorld OptionsObject
owned_box (trait_object n) w = done (shared_object 1 n) w
owned_box _ w = fault

unfoldable pub make_shared : Ptr → M OptionsWorld (Unit {0})
make_shared p = do o ← load p; o' ← owned_box o; store p o'

abbrev pub fewer_owners : OptionsObject → Option (Option OptionsObject)
fewer_owners (shared_object zero n) = none
fewer_owners (shared_object (suc zero) n) = some none
fewer_owners (shared_object (suc (suc k)) n) = some (some (shared_object (suc k) n))
fewer_owners _ = none

-- A copy of a shared pointer.
abbrev pub more_owners : OptionsObject → M OptionsWorld OptionsObject
more_owners (shared_object k n) w = done (shared_object (suc k) n) w
more_owners _ w = fault

abbrev pub share_all : List Ptr → M OptionsWorld (Unit {0})
share_all [] = pure tt
share_all (p ∷ ps) = do o ← load p; o' ← more_owners o; store p o'; share_all ps

-- The members that are shared pointers to native objects around trait objects.
abbrev pub db_owns : DbField → Bool
db_owns DbField.listeners = true
db_owns _ = false

abbrev pub cf_owns : CfField → Bool
cf_owns CfField.merge_operator = true
cf_owns CfField.prefix_extractor = true
cf_owns CfField.memtable_insert_with_hint_prefix_extractor = true
cf_owns CfField.table_properties_collector_factories = true
cf_owns _ = false

-- All boxes that the members own.
unfoldable pub db_boxes : Settings DbField → List Ptr
db_boxes s = boxes (s DbField.listeners)

unfoldable pub cf_boxes : Settings CfField → List Ptr
cf_boxes s =
    boxes (s CfField.merge_operator)
    ++ boxes (s CfField.prefix_extractor)
    ++ boxes (s CfField.memtable_insert_with_hint_prefix_extractor)
    ++ boxes (s CfField.table_properties_collector_factories)

abbrev pub db_of : OptionsObject → Option (Settings DbField)
db_of (OptionsObject.dboptions s) = some s
db_of _ = none

abbrev pub db_kind : Kind OptionsObject DbField
db_kind = record {
  wrap = OptionsObject.dboptions;
  unwrap = db_of;
  unwrap-wrap = λ _. refl;
  discrete = DbField-discrete;
  owns = db_owns;
  release = fewer_owners;
}

abbrev pub cf_of : OptionsObject → Option (Settings CfField)
cf_of (OptionsObject.cfoptions s) = some s
cf_of _ = none

abbrev pub cf_kind : Kind OptionsObject CfField
cf_kind = record {
  wrap = OptionsObject.cfoptions;
  unwrap = cf_of;
  unwrap-wrap = λ _. refl;
  discrete = CfField-discrete;
  owns = cf_owns;
  release = fewer_owners;
}

abbrev pub read_of : OptionsObject → Option (Settings ReadField)
read_of (OptionsObject.readoptions s) = some s
read_of _ = none

abbrev pub read_kind : Kind OptionsObject ReadField
read_kind = record {
  wrap = OptionsObject.readoptions;
  unwrap = read_of;
  unwrap-wrap = λ _. refl;
  discrete = ReadField-discrete;
  owns = λ _. false;
  release = fewer_owners;
}

abbrev pub write_of : OptionsObject → Option (Settings WriteField)
write_of (OptionsObject.writeoptions s) = some s
write_of _ = none

abbrev pub write_kind : Kind OptionsObject WriteField
write_kind = record {
  wrap = OptionsObject.writeoptions;
  unwrap = write_of;
  unwrap-wrap = λ _. refl;
  discrete = WriteField-discrete;
  owns = λ _. false;
  release = fewer_owners;
}

abbrev pub flush_of : OptionsObject → Option (Settings FlushField)
flush_of (OptionsObject.flushoptions s) = some s
flush_of _ = none

abbrev pub flush_kind : Kind OptionsObject FlushField
flush_kind = record {
  wrap = OptionsObject.flushoptions;
  unwrap = flush_of;
  unwrap-wrap = λ _. refl;
  discrete = FlushField-discrete;
  owns = λ _. false;
  release = fewer_owners;
}

abbrev pub compaction_of : OptionsObject → Option (Settings CompactionField)
compaction_of (OptionsObject.compaction_options s) = some s
compaction_of _ = none

abbrev pub compaction_kind : Kind OptionsObject CompactionField
compaction_kind = record {
  wrap = OptionsObject.compaction_options;
  unwrap = compaction_of;
  unwrap-wrap = λ _. refl;
  discrete = CompactionField-discrete;
  owns = λ _. false;
  release = fewer_owners;
}

abbrev pub compact_range_of : OptionsObject → Option (Settings CompactRangeField)
compact_range_of (OptionsObject.compactrange_options s) = some s
compact_range_of _ = none

abbrev pub compact_range_kind : Kind OptionsObject CompactRangeField
compact_range_kind = record {
  wrap = OptionsObject.compactrange_options;
  unwrap = compact_range_of;
  unwrap-wrap = λ _. refl;
  discrete = CompactRangeField-discrete;
  owns = λ _. false;
  release = fewer_owners;
}

abbrev pub ingest_of : OptionsObject → Option (Settings IngestField)
ingest_of (OptionsObject.ingestexternalfile_options s) = some s
ingest_of _ = none

abbrev pub ingest_kind : Kind OptionsObject IngestField
ingest_kind = record {
  wrap = OptionsObject.ingestexternalfile_options;
  unwrap = ingest_of;
  unwrap-wrap = λ _. refl;
  discrete = IngestField-discrete;
  owns = λ _. false;
  release = fewer_owners;
}

abbrev pub block_of : OptionsObject → Option (Settings BlockField)
block_of (OptionsObject.block_based_table_options s) = some s
block_of _ = none

abbrev pub block_kind : Kind OptionsObject BlockField
block_kind = record {
  wrap = OptionsObject.block_based_table_options;
  unwrap = block_of;
  unwrap-wrap = λ _. refl;
  discrete = BlockField-discrete;
  owns = λ _. false;
  release = fewer_owners;
}

abbrev pub plain_of : OptionsObject → Option (Settings PlainField)
plain_of (OptionsObject.plain_table_options s) = some s
plain_of _ = none

abbrev pub plain_kind : Kind OptionsObject PlainField
plain_kind = record {
  wrap = OptionsObject.plain_table_options;
  unwrap = plain_of;
  unwrap-wrap = λ _. refl;
  discrete = PlainField-discrete;
  owns = λ _. false;
  release = fewer_owners;
}

abbrev pub cuckoo_of : OptionsObject → Option (Settings CuckooField)
cuckoo_of (OptionsObject.cuckoo_table_options s) = some s
cuckoo_of _ = none

abbrev pub cuckoo_kind : Kind OptionsObject CuckooField
cuckoo_kind = record {
  wrap = OptionsObject.cuckoo_table_options;
  unwrap = cuckoo_of;
  unwrap-wrap = λ _. refl;
  discrete = CuckooField-discrete;
  owns = λ _. false;
  release = fewer_owners;
}

abbrev pub universal_of : OptionsObject → Option (Settings UniversalField)
universal_of (OptionsObject.universal_compaction_options s) = some s
universal_of _ = none

abbrev pub universal_kind : Kind OptionsObject UniversalField
universal_kind = record {
  wrap = OptionsObject.universal_compaction_options;
  unwrap = universal_of;
  unwrap-wrap = λ _. refl;
  discrete = UniversalField-discrete;
  owns = λ _. false;
  release = fewer_owners;
}

abbrev pub fifo_of : OptionsObject → Option (Settings FifoField)
fifo_of (OptionsObject.fifo_compaction_options s) = some s
fifo_of _ = none

abbrev pub fifo_kind : Kind OptionsObject FifoField
fifo_kind = record {
  wrap = OptionsObject.fifo_compaction_options;
  unwrap = fifo_of;
  unwrap-wrap = λ _. refl;
  discrete = FifoField-discrete;
  owns = λ _. false;
  release = fewer_owners;
}
