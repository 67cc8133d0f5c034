-- ===== src/Options/Built.antt =====
-- What `X::default()` with a chain of setters makes, for every options type of src/options.rs,
-- src/table.rs, src/universal_compaction.rs and src/advanced_options.rs.
use rust_rocks.Common.{List, refl}
use rust_rocks.Ffi.{IsHeap}
use rust_rocks.Options.Struct.{Settings, IsPlain}
use rust_rocks.Options.Fields.{
  DbField, CfField, ReadField, WriteField, FlushField, CompactionField, CompactRangeField,
  IngestField, BlockField, UniversalField, FifoField,
}
use rust_rocks.Options.Objects.{OptionsWorld, db_kind, cf_kind}
use rust_rocks.Options.Chain.{Builds, build-Builds}
use rust_rocks.Options.Plain.{db_drop-free, cf_drop-free}
use rust_rocks.Options.Db.Setters.{DbSetter, db_builder}
use rust_rocks.Options.Cf.Setters.{CfSetter, cf_builder}
use rust_rocks.Options.Read.Setters.{ReadSetter, read_builder}
use rust_rocks.Options.Small.Write.Setters.{WriteSetter, write_builder}
use rust_rocks.Options.Small.Flush.Setters.{FlushSetter, flush_builder}
use rust_rocks.Options.Small.Compaction.Setters.{CompactionSetter, compaction_builder}
use rust_rocks.Options.Small.CompactRange.Setters.{CompactRangeSetter, compact_range_builder}
use rust_rocks.Options.Small.Ingest.Setters.{IngestSetter, ingest_builder}
use rust_rocks.Options.Table.Block.Setters.{BlockSetter, block_builder}
use rust_rocks.Options.Style.Universal.Setters.{UniversalSetter, universal_builder}
use rust_rocks.Options.Style.Fifo.Setters.{FifoSetter, fifo_builder}
use rust_rocks.Options.Db.Object.{drop_options as drop_db}
use rust_rocks.Options.Cf.Object.{drop_options as drop_cf}
use rust_rocks.Options.Read.{drop_options as drop_read}
use rust_rocks.Options.Small.Write.{drop_options as drop_write}
use rust_rocks.Options.Small.Flush.{drop_options as drop_flush}
use rust_rocks.Options.Small.Compaction.{drop_options as drop_compaction}
use rust_rocks.Options.Small.CompactRange.{drop_options as drop_compact_range}
use rust_rocks.Options.Small.Ingest.{drop_options as drop_ingest}
use rust_rocks.Options.Table.Block.{drop_options as drop_block}
use rust_rocks.Options.Style.Universal.{drop_options as drop_universal}
use rust_rocks.Options.Style.Fifo.{drop_options as drop_fifo}

-- From a heap that meets `IsHeap`, and if the defaults own no box of a Rust trait object,
-- `DBOptions::default()` with a chain of setters of flags, numbers,
-- enums and directories, `create_missing_column_families` not among them, makes one native struct. Every member of it holds what the last setter of
-- it gave, or else its default; nothing else in the native heap changes, and the drop of the
-- options gives the struct back.
pub db_build-Builds :
    (defaults : Settings DbField) (ss : List DbSetter) (w : OptionsWorld)
    → IsHeap w.heap
    → IsPlain db_kind defaults
    → Builds db_builder drop_db defaults ss w
db_build-Builds = build-Builds db_builder drop_db db_drop-free

-- From a heap that meets `IsHeap`, and if the defaults own no box of a Rust trait object,
-- `ColumnFamilyOptions::default()` with a chain of setters of
-- flags, numbers, enums, arrays and built-in factories makes one native struct. Every member of it
-- holds what the last setter of it gave, or else its default; nothing else in the native heap
-- changes, and the drop of the options gives the struct back.
pub cf_build-Builds :
    (defaults : Settings CfField) (ss : List CfSetter) (w : OptionsWorld)
    → IsHeap w.heap
    → IsPlain cf_kind defaults
    → Builds cf_builder drop_cf defaults ss w
cf_build-Builds = build-Builds cf_builder drop_cf cf_drop-free

-- From a heap that meets `IsHeap`, the options for reads, writes, flushes, compactions, manual
-- compactions and ingestion, each made by `default()` and a chain of setters, hold in every member
-- what the last setter of it gave, or else its default; nothing else in the native heap changes,
-- and their drop gives the native struct back.
pub small_build-Builds :
    (d0 : Settings ReadField) (s0 : List ReadSetter) (d1 : Settings WriteField)
    (s1 : List WriteSetter) (d2 : Settings FlushField) (s2 : List FlushSetter)
    (d3 : Settings CompactionField) (s3 : List CompactionSetter) (d4 : Settings CompactRangeField)
    (s4 : List CompactRangeSetter) (d5 : Settings IngestField) (s5 : List IngestSetter)
    (w : OptionsWorld)
    → IsHeap w.heap
    → Builds read_builder drop_read d0 s0 w
      × Builds write_builder drop_write d1 s1 w
      × Builds flush_builder drop_flush d2 s2 w
      × Builds compaction_builder drop_compaction d3 s3 w
      × Builds compact_range_builder drop_compact_range d4 s4 w
      × Builds ingest_builder drop_ingest d5 s5 w
unfolding drop_read drop_write drop_flush drop_compaction drop_compact_range drop_ingest
small_build-Builds d0 s0 d1 s1 d2 s2 d3 s3 d4 s4 d5 s5 w is = (
  build-Builds read_builder drop_read (λ _ _ _ _ _. refl) d0 s0 w is (λ _. refl),
  build-Builds write_builder drop_write (λ _ _ _ _ _. refl) d1 s1 w is (λ _. refl),
  build-Builds flush_builder drop_flush (λ _ _ _ _ _. refl) d2 s2 w is (λ _. refl),
  build-Builds compaction_builder drop_compaction (λ _ _ _ _ _. refl) d3 s3 w is (λ _. refl),
  build-Builds compact_range_builder drop_compact_range (λ _ _ _ _ _. refl) d4 s4 w is (λ _. refl),
  build-Builds ingest_builder drop_ingest (λ _ _ _ _ _. refl) d5 s5 w is (λ _. refl),
)

-- From a heap that meets `IsHeap`, the options of block based tables and of universal and FIFO
-- compaction, each made by `default()` and a chain of setters, hold in every member what the last
-- setter of it gave, or else its default; nothing else in the native heap changes, and their drop
-- gives the native struct back.
pub table_build-Builds :
    (d0 : Settings BlockField) (s0 : List BlockSetter) (d1 : Settings UniversalField)
    (s1 : List UniversalSetter) (d2 : Settings FifoField) (s2 : List FifoSetter) (w : OptionsWorld)
    → IsHeap w.heap
    → Builds block_builder drop_block d0 s0 w
      × Builds universal_builder drop_universal d1 s1 w
      × Builds fifo_builder drop_fifo d2 s2 w
unfolding drop_block drop_universal drop_fifo
table_build-Builds d0 s0 d1 s1 d2 s2 w is = (
  build-Builds block_builder drop_block (λ _ _ _ _ _. refl) d0 s0 w is (λ _. refl),
  build-Builds universal_builder drop_universal (λ _ _ _ _ _. refl) d1 s1 w is (λ _. refl),
  build-Builds fifo_builder drop_fifo (λ _ _ _ _ _. refl) d2 s2 w is (λ _. refl),
)

-- From a heap that meets `IsHeap`, the options for reads, writes, flushes, compactions, manual
-- compactions and ingestion, of block based tables, and of universal and FIFO compaction, each made
-- by `default()` and a chain of setters, hold in every member what the last setter of it gave, or
-- else its default; nothing else in the native heap changes, and their drop gives the native struct
-- back.
pub others_build-Builds :
    (d0 : Settings ReadField) (s0 : List ReadSetter) (d1 : Settings WriteField)
    (s1 : List WriteSetter) (d2 : Settings FlushField) (s2 : List FlushSetter)
    (d3 : Settings CompactionField) (s3 : List CompactionSetter) (d4 : Settings CompactRangeField)
    (s4 : List CompactRangeSetter) (d5 : Settings IngestField) (s5 : List IngestSetter)
    (d6 : Settings BlockField) (s6 : List BlockSetter) (d7 : Settings UniversalField)
    (s7 : List UniversalSetter) (d8 : Settings FifoField) (s8 : List FifoSetter) (w : OptionsWorld)
    → IsHeap w.heap
    → (Builds read_builder drop_read d0 s0 w
        × Builds write_builder drop_write d1 s1 w
        × Builds flush_builder drop_flush d2 s2 w
        × Builds compaction_builder drop_compaction d3 s3 w
        × Builds compact_range_builder drop_compact_range d4 s4 w
        × Builds ingest_builder drop_ingest d5 s5 w)
      × Builds block_builder drop_block d6 s6 w
      × Builds universal_builder drop_universal d7 s7 w
      × Builds fifo_builder drop_fifo d8 s8 w
others_build-Builds d0 s0 d1 s1 d2 s2 d3 s3 d4 s4 d5 s5 d6 s6 d7 s7 d8 s8 w is =
    let (block, universal, fifo) = table_build-Builds d6 s6 d7 s7 d8 s8 w is in
    (small_build-Builds d0 s0 d1 s1 d2 s2 d3 s3 d4 s4 d5 s5 w is, block, universal, fifo)
