-- ===== src/Options/Cf/Boxes.antt =====
-- The boxes of trait objects that the setters of `ColumnFamilyOptions` take over (src/options.rs): which
-- of them `delete` releases with the options.
use rust_rocks.Common.{ℕ, ◌+◌, ◌≡◌, ◌≢◌, Option, none, some, [], ◌∷◌, arith}
use rust_rocks.Ffi.{Ptr, Outcome, done, M, ◌>>=◌, update, IsHeap}
use rust_rocks.Options.Struct.{
  Value, wrapped, boxes, push_wrapped, append_member, IsPlain, Settings, read_struct, set_member,
  put_member,
}
use rust_rocks.Options.Fields.{CfField}
use rust_rocks.Options.Objects.{
  OptionsWorld, cf_kind, cfoptions, trait_object, shared_object, OptionsObject, cf_boxes,
}
use rust_rocks.Options.Assign.{written}
use rust_rocks.Options.Cf.Object.{CfOptions, drop_options}
use rust_rocks.Options.Cf.Traits.{
  comparator, compaction_filter, merge_operator, associative_merge_operator, prefix_extractor,
  memtable_insert_with_hint_prefix_extractor, table_properties_collector_factory,
}

-- The options with one member set, in a world where nothing else changed.
abbrev pub holding : OptionsWorld → Ptr → Settings CfField → CfField → Value → OptionsWorld
holding w raw s f v = written cf_kind w raw (put_member cf_kind s f v)

abbrev pub released : OptionsWorld → Ptr → OptionsWorld
released w p = record w { heap = record w.heap { cell = update w.heap.cell p none } }

-- The options are dropped, and of what was made since `w` only the object `x` at `next` is left.
abbrev pub Leaves :
    OptionsWorld → Ptr → Option OptionsObject → Outcome OptionsWorld (Unit {0}) → Type 0
Leaves w raw x out =
    (w' : OptionsWorld) × (out ≡ done tt w')
    × (w'.heap.cell w.heap.next ≡ x)
    × (w'.heap.cell raw ≡ none)
    × ((q : Ptr) → q ≢ w.heap.next → q ≢ raw → w'.heap.cell q ≡ w.heap.cell q)

pub boxes-push_wrapped : (v : Value) (p : Ptr) → boxes v ≡ [] → boxes (push_wrapped v p) ≡ p ∷ []
boxes-push_wrapped v p h = ground (arith, h)

module _ (self : CfOptions) (s : Settings CfField) (n : ℕ) (w : OptionsWorld) (is : IsHeap w.heap)
    (here : w.heap.cell self.raw ≡ some (cfoptions s)) (plain : IsPlain cf_kind s) where
  -- The world with a new box, and with a native object around it that one shared pointer owns.
  abbrev boxed : OptionsWorld
  boxed = record w {
    heap = record {
      next = w.heap.next + 1;
      cell = update w.heap.cell w.heap.next (some (trait_object n));
    };
  }

  abbrev shared : OptionsWorld
  shared = record boxed {
    heap = record boxed.heap {
      cell = update boxed.heap.cell w.heap.next (some (shared_object 1 n));
    };
  }

  abbrev box : Value
  box = wrapped w.heap.next

  -- The object of a member that is a plain pointer stays.
  stays_lem :
      (f : CfField)
      → cf_boxes (put_member cf_kind s f box) ≡ []
      → Leaves w self.raw
          (some (trait_object n))
          (drop_options self (holding boxed self.raw s f box))
  unfolding drop_options read_struct
  stays_lem f none_owned = (
    released (holding boxed self.raw s f box) self.raw,
    ground (arith, none_owned),
    ground (arith, here, is.unused w.heap.next),
    ground arith,
    λ q new old. ground arith,
  )

  -- The object of a member that is a shared pointer goes with it.
  goes_lem :
      (f : CfField) (v : Value)
      → cf_boxes (put_member cf_kind s f v) ≡ w.heap.next ∷ []
      → Leaves w self.raw none (drop_options self (holding shared self.raw s f v))
  unfolding drop_options read_struct
  goes_lem f v one_owned = (
    released (released (holding shared self.raw s f v) self.raw) w.heap.next,
    ground (arith, one_owned, here, is.unused w.heap.next),
    ground arith,
    ground arith,
    λ q new old. ground arith,
  )

  abbrev Stays : (CfOptions → ℕ → M OptionsWorld CfOptions) → Type 0
  Stays set = Leaves w self.raw (some (trait_object n)) ((set self n >>= drop_options) w)

  abbrev Goes : (CfOptions → ℕ → M OptionsWorld CfOptions) → Type 0
  Goes set = Leaves w self.raw none ((set self n >>= drop_options) w)

  comparator_lem : comparator self n w ≡ done self (holding boxed self.raw s CfField.comparator box)
  unfolding comparator set_member read_struct
  comparator_lem = ground (arith, here, is.unused w.heap.next)

  compaction_filter_lem :
      compaction_filter self n w
      ≡ done self (holding boxed self.raw s CfField.compaction_filter box)
  unfolding compaction_filter set_member read_struct
  compaction_filter_lem = ground (arith, here, is.unused w.heap.next)

  merge_operator_lem :
      merge_operator self n w ≡ done self (holding shared self.raw s CfField.merge_operator box)
  unfolding merge_operator set_member read_struct
  merge_operator_lem = ground (arith, here, is.unused w.heap.next, plain CfField.merge_operator)

  associative_lem :
      associative_merge_operator self n w
      ≡ done self (holding shared self.raw s CfField.merge_operator box)
  unfolding associative_merge_operator set_member read_struct
  associative_lem = ground (arith, here, is.unused w.heap.next, plain CfField.merge_operator)

  prefix_extractor_lem :
      prefix_extractor self n w ≡ done self (holding shared self.raw s CfField.prefix_extractor box)
  unfolding prefix_extractor set_member read_struct
  prefix_extractor_lem = ground (arith, here, is.unused w.heap.next, plain CfField.prefix_extractor)

  hint_lem :
      memtable_insert_with_hint_prefix_extractor self n w
      ≡ done self (holding shared self.raw s CfField.memtable_insert_with_hint_prefix_extractor box)
  unfolding memtable_insert_with_hint_prefix_extractor set_member read_struct
  hint_lem =
      ground (
        arith,
        here,
        is.unused w.heap.next,
        plain CfField.memtable_insert_with_hint_prefix_extractor,
      )

  collector_lem :
      table_properties_collector_factory self n w
      ≡ done self (
          holding shared self.raw s CfField.table_properties_collector_factories
            (push_wrapped (s CfField.table_properties_collector_factories) w.heap.next))
  unfolding table_properties_collector_factory append_member read_struct
  collector_lem = ground (arith, here, is.unused w.heap.next)

  cf_boxes-comparator : cf_boxes (put_member cf_kind s CfField.comparator box) ≡ []
  unfolding cf_boxes
  cf_boxes-comparator = ground (
    arith,
    plain CfField.merge_operator,
    plain CfField.prefix_extractor,
    plain CfField.memtable_insert_with_hint_prefix_extractor,
    plain CfField.table_properties_collector_factories,
  )

  cf_boxes-compaction_filter : cf_boxes (put_member cf_kind s CfField.compaction_filter box) ≡ []
  unfolding cf_boxes
  cf_boxes-compaction_filter = ground (
    arith,
    plain CfField.merge_operator,
    plain CfField.prefix_extractor,
    plain CfField.memtable_insert_with_hint_prefix_extractor,
    plain CfField.table_properties_collector_factories,
  )

  cf_boxes-merge_operator :
      cf_boxes (put_member cf_kind s CfField.merge_operator box) ≡ w.heap.next ∷ []
  unfolding cf_boxes
  cf_boxes-merge_operator = ground (
    arith,
    plain CfField.merge_operator,
    plain CfField.prefix_extractor,
    plain CfField.memtable_insert_with_hint_prefix_extractor,
    plain CfField.table_properties_collector_factories,
  )

  cf_boxes-prefix_extractor :
      cf_boxes (put_member cf_kind s CfField.prefix_extractor box) ≡ w.heap.next ∷ []
  unfolding cf_boxes
  cf_boxes-prefix_extractor = ground (
    arith,
    plain CfField.merge_operator,
    plain CfField.prefix_extractor,
    plain CfField.memtable_insert_with_hint_prefix_extractor,
    plain CfField.table_properties_collector_factories,
  )

  cf_boxes-memtable_insert_with_hint_prefix_extractor :
      cf_boxes (put_member cf_kind s CfField.memtable_insert_with_hint_prefix_extractor box)
      ≡ w.heap.next ∷ []
  unfolding cf_boxes
  cf_boxes-memtable_insert_with_hint_prefix_extractor = ground (
    arith,
    plain CfField.merge_operator,
    plain CfField.prefix_extractor,
    plain CfField.memtable_insert_with_hint_prefix_extractor,
    plain CfField.table_properties_collector_factories,
  )

  cf_boxes-table_properties_collector_factories :
      cf_boxes (
        put_member cf_kind s CfField.table_properties_collector_factories
          (push_wrapped (s CfField.table_properties_collector_factories) w.heap.next))
      ≡ w.heap.next ∷ []
  unfolding cf_boxes
  cf_boxes-table_properties_collector_factories = ground (
    arith,
    plain CfField.merge_operator,
    plain CfField.prefix_extractor,
    plain CfField.memtable_insert_with_hint_prefix_extractor,
    plain CfField.table_properties_collector_factories,
    boxes-push_wrapped (s CfField.table_properties_collector_factories) w.heap.next
        (plain CfField.table_properties_collector_factories),
  )

  -- Once the options are dropped, the box of a comparator or of a compaction filter that was set is
  -- still there, and that of a merge operator, of a prefix extractor or of a collector factory is
  -- gone.
  pub boxes-outcome :
      (Stays comparator × Stays compaction_filter)
      × Goes merge_operator
      × Goes associative_merge_operator
      × Goes prefix_extractor
      × Goes memtable_insert_with_hint_prefix_extractor
      × Goes table_properties_collector_factory
  boxes-outcome = (
    (
      rw comparator_lem (stays_lem CfField.comparator cf_boxes-comparator),
      rw compaction_filter_lem (stays_lem CfField.compaction_filter cf_boxes-compaction_filter),
    ),
    rw merge_operator_lem (goes_lem CfField.merge_operator box cf_boxes-merge_operator),
    rw associative_lem (goes_lem CfField.merge_operator box cf_boxes-merge_operator),
    rw prefix_extractor_lem (goes_lem CfField.prefix_extractor box cf_boxes-prefix_extractor),
    rw hint_lem (
        goes_lem CfField.memtable_insert_with_hint_prefix_extractor box
          cf_boxes-memtable_insert_with_hint_prefix_extractor),
    rw collector_lem (
        goes_lem CfField.table_properties_collector_factories _
          cf_boxes-table_properties_collector_factories),
  )
