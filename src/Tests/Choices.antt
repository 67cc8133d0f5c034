-- ===== src/Tests/Choices.antt =====
-- Tests of Options: chains of setters, and options that take over other objects.
use rust_rocks.Common.{
  zero, suc, ◌≤◌, ◌≡◌, ◌≢◌, refl, true, false, Option, none, some, List, [], ◌∷◌, get_elem?,
  get_elem?-bound, Option-cases, inl, inr, arith,
}
use rust_rocks.Ffi.{Ptr, IsHeap, done, fault, ◌>>=◌}
use rust_rocks.Options.Struct.{
  IsPlain, only-nil, Settings, number, pointer, put_member, block_based_factory, plain_factory,
  cuckoo_factory, universal_style, fifo_style,
}
use rust_rocks.Options.Fields.{DbField, CfField, ReadField}
use rust_rocks.Options.Enums.{CompressionType, IndexType}
use rust_rocks.Options.Objects.{
  OptionsObject, OptionsWorld, db_kind, cf_kind, read_kind, dboptions, cfoptions, readoptions,
  block_based_table_options, plain_table_options, cuckoo_table_options,
  universal_compaction_options, fifo_compaction_options, options, holder, trait_object,
}
use rust_rocks.Options.Assign.{written, after}
use rust_rocks.Options.Chain.{Builds, chain, effects_of}
use rust_rocks.Options.Db.FlagSetters.{DbFlag}
use rust_rocks.Options.Db.NumberSetters.{DbNumber}
use rust_rocks.Options.Db.Setters.{DbSetter, db_builder}
use rust_rocks.Options.Db.Object.{DbOptions, drop_options as drop_db}
use rust_rocks.Options.Db.Shared.{
  rate_limiter, info_log, statistics, row_cache, env, write_buffer_manager,
}
use rust_rocks.Options.Db.Kept.{pointed, pointed_freed, shared-outcome}
use rust_rocks.Options.Db.Unset.{AnySetter, any_builder, create_missing_column_families_unset}
use rust_rocks.Options.Cf.NumberSetters.{CfNumber}
use rust_rocks.Options.Cf.Setters.{CfSetter, cf_builder}
use rust_rocks.Options.Cf.Object.{CfOptions, drop_options as drop_cf}
use rust_rocks.Options.Cf.Traits.{
  comparator, compaction_filter, merge_operator, associative_merge_operator, prefix_extractor,
  memtable_insert_with_hint_prefix_extractor, table_properties_collector_factory,
}
use rust_rocks.Options.Cf.Factories.{
  table_factory_block_based, table_factory_plain, table_factory_cuckoo,
  compaction_options_universal, compaction_options_fifo,
}
use rust_rocks.Options.Cf.Boxes.{Leaves, holding, released}
use rust_rocks.Options.Cf.Owned.{copied-outcome}
use rust_rocks.Options.Read.{ReadOptions, drop_options as drop_read}
use rust_rocks.Options.Read.Setters.{ReadFlag, ReadSetter, read_builder}
use rust_rocks.Options.Read.Bounds.{
  snapshot, iterate_upper_bound, borrowed, managed, with_bound, snapshot-outcome,
}
use rust_rocks.Options.Small.Write.{drop_options as drop_write}
use rust_rocks.Options.Small.Write.Setters.{WriteSetter, write_builder}
use rust_rocks.Options.Small.Flush.{drop_options as drop_flush}
use rust_rocks.Options.Small.Flush.Setters.{FlushSetter, flush_builder}
use rust_rocks.Options.Small.Compaction.{drop_options as drop_compaction}
use rust_rocks.Options.Small.Compaction.Setters.{CompactionSetter, compaction_builder}
use rust_rocks.Options.Small.CompactRange.{drop_options as drop_compact_range}
use rust_rocks.Options.Small.CompactRange.Setters.{CompactRangeSetter, compact_range_builder}
use rust_rocks.Options.Small.Ingest.{drop_options as drop_ingest}
use rust_rocks.Options.Small.Ingest.Setters.{IngestSetter, ingest_builder}
use rust_rocks.Options.Table.Block.{drop_options as drop_block}
use rust_rocks.Options.Table.Block.Setters.{BlockSetter, block_builder}
use rust_rocks.Options.Table.Block.Caches.{block_cache, block_cache_compressed, block_cache_fault}
use rust_rocks.Options.Style.Universal.{drop_options as drop_universal}
use rust_rocks.Options.Style.Universal.Setters.{UniversalSetter, universal_builder}
use rust_rocks.Options.Style.Fifo.{drop_options as drop_fifo}
use rust_rocks.Options.Style.Fifo.Setters.{FifoSetter, fifo_builder}
use rust_rocks.Options.Whole.{Options, map_db_options, map_cf_options}
use rust_rocks.Options.Whole.Mapped.{Replaced, map_options-Replaced}
use rust_rocks.Options.Built.{db_build-Builds, cf_build-Builds, others_build-Builds}

abbrev pub zeros : {Field : Type 0} → Settings Field
zeros f = number 0

zeros_db-IsPlain : IsPlain db_kind zeros
zeros_db-IsPlain f = only-nil (db_kind.owns f)

zeros_cf-IsPlain : IsPlain cf_kind zeros
zeros_cf-IsPlain f = only-nil (cf_kind.owns f)

-- One native object of each kind that the theorems need, at the addresses from 1 on.
abbrev objects : List OptionsObject
objects =
    dboptions zeros
    ∷ cfoptions zeros
    ∷ options zeros zeros
    ∷ holder (some 7)
    ∷ block_based_table_options zeros
    ∷ universal_compaction_options zeros
    ∷ fifo_compaction_options zeros
    ∷ plain_table_options zeros
    ∷ cuckoo_table_options zeros
    ∷ readoptions zeros
    ∷ []

abbrev cells : Ptr → Option OptionsObject
cells zero = none
cells (suc p) = get_elem? objects p

abbrev world : OptionsWorld
world = record { heap = record { next = 11; cell = cells }; state = tt }

world-unused : (p : Ptr) → 11 ≤ p → cells p ≡ none
world-unused zero h = refl
world-unused (suc p) h = elim (Option-cases (get_elem? objects p)) [
  | inl missing ↦ missing
  | inr (x, here) ↦ absurd (omega (arith, get_elem?-bound objects p x here))
]

world-IsHeap : IsHeap world.heap
world-IsHeap = record { positive = omega arith; unused = world-unused }

abbrev db_script : List DbSetter
db_script =
    DbSetter.flag DbFlag.create_if_missing true
    ∷ DbSetter.number DbNumber.max_open_files 5
    ∷ DbSetter.wal_dir (b'w' ∷ [])
    ∷ DbSetter.number DbNumber.max_open_files 6
    ∷ []

abbrev cf_script : List CfSetter
cf_script =
    CfSetter.number CfNumber.num_levels 3
    ∷ CfSetter.compression_per_level (CompressionType.zstd ∷ [])
    ∷ CfSetter.prefix_extractor_fixed 4
    ∷ []

db_build-Builds_example : Builds db_builder drop_db zeros db_script world
db_build-Builds_example = db_build-Builds zeros db_script world world-IsHeap zeros_db-IsPlain

cf_build-Builds_example : Builds cf_builder drop_cf zeros cf_script world
cf_build-Builds_example = cf_build-Builds zeros cf_script world world-IsHeap zeros_cf-IsPlain

others_build-Builds_example :
    (Builds read_builder drop_read zeros (ReadSetter.flag ReadFlag.tailing true ∷ []) world
      × Builds write_builder drop_write zeros (WriteSetter.sync true ∷ []) world
      × Builds flush_builder drop_flush zeros (FlushSetter.wait false ∷ []) world
      × Builds compaction_builder drop_compaction zeros
          (CompactionSetter.output_file_size_limit 9 ∷ [])
          world
      × Builds compact_range_builder drop_compact_range zeros
          (CompactRangeSetter.target_level 2 ∷ [])
          world
      × Builds ingest_builder drop_ingest zeros (IngestSetter.move_files true ∷ []) world)
    × Builds block_builder drop_block zeros
        (BlockSetter.index_type IndexType.hash_search ∷ [])
        world
    × Builds universal_builder drop_universal zeros (UniversalSetter.size_ratio 1 ∷ []) world
    × Builds fifo_builder drop_fifo zeros (FifoSetter.ttl 60 ∷ FifoSetter.ttl 30 ∷ []) world
others_build-Builds_example =
    others_build-Builds zeros (ReadSetter.flag ReadFlag.tailing true ∷ []) zeros
      (WriteSetter.sync true ∷ []) zeros (FlushSetter.wait false ∷ []) zeros
      (CompactionSetter.output_file_size_limit 9 ∷ []) zeros
      (CompactRangeSetter.target_level 2 ∷ []) zeros (IngestSetter.move_files true ∷ []) zeros
      (BlockSetter.index_type IndexType.hash_search ∷ []) zeros (UniversalSetter.size_ratio 1 ∷ [])
      zeros (FifoSetter.ttl 60 ∷ FifoSetter.ttl 30 ∷ []) world world-IsHeap

map_options-Replaced_example :
    ((o' : Options) × (w' : OptionsWorld) × (map_db_options
          (record { raw = 3 })
          (chain db_builder db_script)
          world
        ≡ done o' w')
      × Replaced 3 (after db_kind zeros (effects_of db_builder db_script)) zeros o' world w')
    × ((o' : Options) × (w' : OptionsWorld) × (map_cf_options
            (record { raw = 3 })
            (chain cf_builder cf_script)
            world
          ≡ done o' w')
        × Replaced 3 zeros (after cf_kind zeros (effects_of cf_builder cf_script)) o' world w')
map_options-Replaced_example =
    map_options-Replaced (record { raw = 3 }) zeros zeros db_script cf_script world world-IsHeap
      refl zeros_db-IsPlain zeros_cf-IsPlain

create_missing_column_families_unset_example :
    (w' : OptionsWorld) × (s' : Settings DbField) × (chain any_builder
        (AnySetter.create_missing_column_families true
          ∷ AnySetter.setter (DbSetter.wal_dir (b'w' ∷ []))
          ∷ [])
        (record { raw = 1 })
        world
      ≡ done (record { raw = 1 }) w')
    × (w'.heap.cell 1 ≡ some (dboptions s'))
    × (s' DbField.create_missing_column_families ≡ number 0)
create_missing_column_families_unset_example =
    create_missing_column_families_unset
      (AnySetter.create_missing_column_families true
        ∷ AnySetter.setter (DbSetter.wal_dir (b'w' ∷ []))
        ∷ [])
      (record { raw = 1 }) zeros world refl

abbrev db_one : DbOptions
db_one = record { raw = 1 }

shared-outcome_example :
    (rate_limiter db_one (some 4) world
      ≡ done db_one (pointed_freed world 1 zeros DbField.rate_limiter (some 7) 4))
    × (info_log db_one (some 4) world
        ≡ done db_one (pointed_freed world 1 zeros DbField.info_log (some 7) 4))
    × (statistics db_one (some 4) world
        ≡ done db_one (pointed_freed world 1 zeros DbField.statistics (some 7) 4))
    × (row_cache db_one (some 4) world
        ≡ done db_one (pointed_freed world 1 zeros DbField.row_cache (some 7) 4))
    × (env db_one 4 world ≡ done db_one (pointed world 1 zeros DbField.env (some 7)))
    × (write_buffer_manager db_one 4 world
        ≡ done db_one (pointed world 1 zeros DbField.write_buffer_manager (some 7)))
    × (rate_limiter db_one none world
        ≡ done db_one (pointed world 1 zeros DbField.rate_limiter none))
    × (statistics db_one none world ≡ done db_one (pointed world 1 zeros DbField.statistics none))
    × (info_log db_one none world ≡ done db_one world)
    × (row_cache db_one none world ≡ fault)
shared-outcome_example = shared-outcome db_one zeros 4 (some 7) world refl refl refl

abbrev reading : ReadOptions
reading = record { raw = 10 }

snapshot-outcome_example :
    (snapshot reading (some (borrowed 4)) world
      ≡ done reading (
          written read_kind world 10
            (put_member read_kind zeros ReadField.snapshot (pointer (some 7)))))
    × (snapshot reading none world
        ≡ done reading (
            written read_kind world 10
              (put_member read_kind zeros ReadField.snapshot (pointer none))))
    × (snapshot reading (some (managed 4)) world ≡ fault)
    × (w' : OptionsWorld) × (iterate_upper_bound reading (b'u' ∷ []) world ≡ done reading w')
    × (w'.heap.cell 10 ≡ some (readoptions (with_bound zeros 10 (b'u' ∷ []))))
    × ((q : Ptr) → q ≢ 10 → w'.heap.cell q ≡ cells q)
snapshot-outcome_example =
    snapshot-outcome reading zeros 4 (some 7) (b'u' ∷ []) world refl refl (omega arith)

block_cache_fault_example :
    (block_cache (record { raw = 5 }) (some 4) world ≡ fault)
    × (block_cache_compressed (record { raw = 5 }) (some 4) world ≡ fault)
block_cache_fault_example =
    block_cache_fault (record { raw = 5 }) 4 (some 7) world (omega arith) refl

abbrev cf_two : CfOptions
cf_two = record { raw = 2 }

copied-outcome_example :
    ((table_factory_block_based cf_two 5 world
        ≡ done cf_two
            (released (holding world 2 zeros CfField.table_factory (block_based_factory zeros)) 5))
      × (compaction_options_universal cf_two 6 world
          ≡ done cf_two (
              released
                (holding world 2 zeros CfField.compaction_options_universal (universal_style zeros))
                6))
      × (compaction_options_fifo cf_two 7 world
          ≡ done cf_two (
              released
                (holding world 2 zeros CfField.compaction_options_fifo (fifo_style zeros))
                7)))
    × (table_factory_plain cf_two 8 world
        ≡ done cf_two (holding world 2 zeros CfField.table_factory (plain_factory zeros)))
    × (table_factory_cuckoo cf_two 9 world
        ≡ done cf_two (holding world 2 zeros CfField.table_factory (cuckoo_factory zeros)))
    × (Leaves world 2 (some (trait_object 8)) ((comparator cf_two 8 >>= drop_cf) world)
        × Leaves world 2 (some (trait_object 8)) ((compaction_filter cf_two 8 >>= drop_cf) world))
    × Leaves world 2 none ((merge_operator cf_two 8 >>= drop_cf) world)
    × Leaves world 2 none ((associative_merge_operator cf_two 8 >>= drop_cf) world)
    × Leaves world 2 none ((prefix_extractor cf_two 8 >>= drop_cf) world)
    × Leaves world 2 none ((memtable_insert_with_hint_prefix_extractor cf_two 8 >>= drop_cf) world)
    × Leaves world 2 none ((table_properties_collector_factory cf_two 8 >>= drop_cf) world)
copied-outcome_example =
    copied-outcome cf_two zeros zeros zeros zeros zeros zeros 5 6 7 8 9 8 world world-IsHeap refl
      refl refl refl refl refl refl zeros_cf-IsPlain
