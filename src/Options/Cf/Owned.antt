-- ===== src/Options/Cf/Owned.antt =====
-- Who releases what the setters of `ColumnFamilyOptions` take over (src/options.rs): other options,
-- and the boxes of comparators and compaction filters.
use rust_rocks.Common.{ℕ, ◌≡◌, ◌≢◌, none, some, arith}
use rust_rocks.Ffi.{Ptr, null, done, ◌>>=◌, IsHeap}
use rust_rocks.Options.Struct.{
  IsPlain, Settings, read_struct, set_member, block_based_factory, plain_factory, cuckoo_factory,
  universal_style, fifo_style,
}
use rust_rocks.Options.Fields.{
  CfField, BlockField, PlainField, CuckooField, UniversalField, FifoField,
}
use rust_rocks.Options.Objects.{
  OptionsWorld, cf_kind, cfoptions, block_based_table_options, plain_table_options,
  cuckoo_table_options, universal_compaction_options, fifo_compaction_options, trait_object,
}
use rust_rocks.Options.Cf.Object.{CfOptions, drop_options}
use rust_rocks.Options.Cf.Traits.{
  comparator, compaction_filter, merge_operator, associative_merge_operator, prefix_extractor,
  memtable_insert_with_hint_prefix_extractor, table_properties_collector_factory,
}
use rust_rocks.Options.Cf.Factories.{
  table_factory_block_based, table_factory_plain, table_factory_cuckoo,
  compaction_options_universal, compaction_options_fifo,
}
use rust_rocks.Options.Cf.Boxes.{holding, released, Leaves, boxes-outcome}

-- Column family options copy the options of block based tables and of the compaction styles, and
-- these are released. Nothing else changes. The options of tables are not at address null.
pub copied-released :
    (self : CfOptions) (s : Settings CfField) (t : Settings BlockField)
    (u : Settings UniversalField) (f : Settings FifoField) (p q r : Ptr) (w : OptionsWorld)
    → w.heap.cell self.raw ≡ some (cfoptions s)
    → w.heap.cell p ≡ some (block_based_table_options t)
    → w.heap.cell q ≡ some (universal_compaction_options u)
    → w.heap.cell r ≡ some (fifo_compaction_options f)
    → p ≢ null
    → (table_factory_block_based self p w
        ≡ done self
            (released (holding w self.raw s CfField.table_factory (block_based_factory t)) p))
      × (compaction_options_universal self q w
          ≡ done self (
              released
                (holding w self.raw s CfField.compaction_options_universal (universal_style u))
                q))
      × (compaction_options_fifo self r w
          ≡ done self
              (released (holding w self.raw s CfField.compaction_options_fifo (fifo_style f)) r))
unfolding table_factory_block_based compaction_options_universal compaction_options_fifo set_member
    read_struct
copied-released self s t u f p q r w here hp hq hr live = (ground arith, ground arith, ground arith)

-- Column family options copy the options of plain and cuckoo tables, and the native objects of
-- these stay behind, since the Rust types have no `Drop`. The table options are not at null.
pub copied-leaked :
    (self : CfOptions) (s : Settings CfField) (t : Settings PlainField) (u : Settings CuckooField)
    (p q : Ptr) (w : OptionsWorld)
    → w.heap.cell self.raw ≡ some (cfoptions s)
    → w.heap.cell p ≡ some (plain_table_options t)
    → w.heap.cell q ≡ some (cuckoo_table_options u)
    → p ≢ null
    → q ≢ null
    → (table_factory_plain self p w
        ≡ done self (holding w self.raw s CfField.table_factory (plain_factory t)))
      × (table_factory_cuckoo self q w
          ≡ done self (holding w self.raw s CfField.table_factory (cuckoo_factory u)))
unfolding table_factory_plain table_factory_cuckoo set_member read_struct
copied-leaked self s t u p q w here hp hq live live' = (ground arith, ground arith)

-- Column family options copy the options of tables and of compaction styles that they are given.
-- Those of block based tables and of the styles are released, and nothing else changes; those of
-- plain and cuckoo tables stay behind, since the Rust types have no `Drop`. Once the options are
-- dropped, the box of a comparator or of a compaction filter that was set is still there, and that
-- of a merge operator, of a prefix extractor or of a collector factory is gone, with nothing else
-- changed. Before, no member owns a box, no object is at address null, and the heap meets `IsHeap`.
pub copied-outcome :
    (self : CfOptions) (s : Settings CfField) (t : Settings BlockField)
    (u : Settings UniversalField) (f : Settings FifoField) (a : Settings PlainField)
    (b : Settings CuckooField) (p q r i j : Ptr) (n : ℕ) (w : OptionsWorld)
    → IsHeap w.heap
    → w.heap.cell self.raw ≡ some (cfoptions s)
    → w.heap.cell p ≡ some (block_based_table_options t)
    → w.heap.cell q ≡ some (universal_compaction_options u)
    → w.heap.cell r ≡ some (fifo_compaction_options f)
    → w.heap.cell i ≡ some (plain_table_options a)
    → w.heap.cell j ≡ some (cuckoo_table_options b)
    → w.heap.cell null ≡ none
    → IsPlain cf_kind s
    → ((table_factory_block_based self p w
          ≡ done self
              (released (holding w self.raw s CfField.table_factory (block_based_factory t)) p))
        × (compaction_options_universal self q w
            ≡ done self (
                released
                  (holding w self.raw s CfField.compaction_options_universal (universal_style u))
                  q))
        × (compaction_options_fifo self r w
            ≡ done self
                (released (holding w self.raw s CfField.compaction_options_fifo (fifo_style f)) r)))
      × (table_factory_plain self i w
          ≡ done self (holding w self.raw s CfField.table_factory (plain_factory a)))
      × (table_factory_cuckoo self j w
          ≡ done self (holding w self.raw s CfField.table_factory (cuckoo_factory b)))
      × (Leaves w self.raw (some (trait_object n)) ((comparator self n >>= drop_options) w)
          × Leaves w self.raw
              (some (trait_object n))
              ((compaction_filter self n >>= drop_options) w))
      × Leaves w self.raw none ((merge_operator self n >>= drop_options) w)
      × Leaves w self.raw none ((associative_merge_operator self n >>= drop_options) w)
      × Leaves w self.raw none ((prefix_extractor self n >>= drop_options) w)
      × Leaves w self.raw none
          ((memtable_insert_with_hint_prefix_extractor self n >>= drop_options) w)
      × Leaves w self.raw none ((table_properties_collector_factory self n >>= drop_options) w)
copied-outcome self s t u f a b p q r i j n w is here hp hq hr hi hj empty plain =
    let (of_plain, of_cuckoo) =
      copied-leaked self s a b i j w here hi hj (λ e. ground (arith, hi, empty, e))
        (λ e. ground (arith, hj, empty, e)) in
    let (kept, merge, associative, prefix, hint, collector) =
      boxes-outcome self s n w is here plain in
    (
      copied-released self s t u f p q r w here hp hq hr (λ e. ground (arith, hp, empty, e)),
      of_plain,
      of_cuckoo,
      kept,
      merge,
      associative,
      prefix,
      hint,
      collector,
    )
