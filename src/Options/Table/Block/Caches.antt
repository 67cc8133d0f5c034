-- ===== src/Options/Table/Block/Caches.antt =====
-- src/table.rs: the setters of `BlockBasedTableOptions` that take a cache or a filter policy, with
-- their glue in rocks-sys/rocks/table.cc. An object that is taken by value is its raw pointer.
use rust_rocks.Common.{◌≢◌, ℕ, ◌≡◌, Option, none, some, arith, ◌==◌, if◌then◌else◌}
use rust_rocks.Ffi.{Ptr, null, fault, M, pure, ◌>>=◌, ◌>>◌, store, free}
use rust_rocks.Options.Struct.{pointer, read_struct, set_member, pointer_of}
use rust_rocks.Options.Objects.{OptionsWorld, block_kind, holder, read_holder}
use rust_rocks.Options.Fields.{BlockField}
use rust_rocks.Options.Table.Block.{BlockBasedTableOptions}

unfoldable pub rocks_block_based_table_options_set_block_cache :
    Ptr → Ptr → M OptionsWorld (Unit {0})
unfolding read_holder
rocks_block_based_table_options_set_block_cache opt p =
    if p == null
    then pure tt
    else (do rep ← read_holder p; set_member block_kind opt BlockField.block_cache (pointer rep))

-- `val.map(|c| c.raw())` takes the cache by value, so it is released before its pointer is used.
unfoldable pub block_cache :
    BlockBasedTableOptions → Option Ptr → M OptionsWorld BlockBasedTableOptions
unfolding rocks_block_based_table_options_set_block_cache
block_cache self none = do rocks_block_based_table_options_set_block_cache self.raw null; pure self
block_cache self (some c) = do
  free c
  rocks_block_based_table_options_set_block_cache self.raw c
  pure self

unfoldable pub rocks_block_based_table_options_set_block_cache_compressed :
    Ptr → Ptr → M OptionsWorld (Unit {0})
unfolding read_holder
rocks_block_based_table_options_set_block_cache_compressed opt p =
    if p == null then pure tt else (do
      rep ← read_holder p
      set_member block_kind opt BlockField.block_cache_compressed (pointer rep))

-- `val.map(|c| c.raw())` takes the cache by value, so it is released before its pointer is used.
unfoldable pub block_cache_compressed :
    BlockBasedTableOptions → Option Ptr → M OptionsWorld BlockBasedTableOptions
unfolding rocks_block_based_table_options_set_block_cache_compressed
block_cache_compressed self none = do
  rocks_block_based_table_options_set_block_cache_compressed self.raw null
  pure self
block_cache_compressed self (some c) = do
  free c
  rocks_block_based_table_options_set_block_cache_compressed self.raw c
  pure self

unfoldable pub rocks_block_based_table_options_set_persistent_cache :
    Ptr → Ptr → M OptionsWorld (Unit {0})
unfolding read_holder
rocks_block_based_table_options_set_persistent_cache opt p =
    if p == null then set_member block_kind opt BlockField.persistent_cache (pointer none) else (do
      rep ← read_holder p
      set_member block_kind opt BlockField.persistent_cache (pointer rep))

-- `PersistentCache` has no `Drop`.
unfoldable pub persistent_cache :
    BlockBasedTableOptions → Option Ptr → M OptionsWorld BlockBasedTableOptions
unfolding rocks_block_based_table_options_set_persistent_cache
persistent_cache self none = do
  rocks_block_based_table_options_set_persistent_cache self.raw null
  pure self
persistent_cache self (some c) = do
  rocks_block_based_table_options_set_persistent_cache self.raw c
  pure self

unfoldable pub rocks_block_based_table_options_set_filter_policy :
    Ptr → Ptr → M OptionsWorld (Unit {0})
unfolding read_holder read_struct
rocks_block_based_table_options_set_filter_policy opt p =
    if p == null then set_member block_kind opt BlockField.filter_policy (pointer none) else (do
      s ← read_struct block_kind opt
      rep ← read_holder p
      store p (holder (pointer_of (s BlockField.filter_policy)))
      set_member block_kind opt BlockField.filter_policy (pointer rep))

-- The policy is released when the setter returns.
unfoldable pub filter_policy :
    BlockBasedTableOptions → Option Ptr → M OptionsWorld BlockBasedTableOptions
unfolding rocks_block_based_table_options_set_filter_policy
filter_policy self none = do
  rocks_block_based_table_options_set_filter_policy self.raw null
  pure self
filter_policy self (some policy) = do
  rocks_block_based_table_options_set_filter_policy self.raw policy
  free policy
  pure self

-- Giving a live cache to `block_cache` or `block_cache_compressed` is a use after free: the native
-- object is released before the glue reads it.
pub block_cache_fault :
    (self : BlockBasedTableOptions) (c : Ptr) (rep : Option ℕ) (w : OptionsWorld)
    → c ≢ null
    → w.heap.cell c ≡ some (holder rep)
    → (block_cache self (some c) w ≡ fault) × (block_cache_compressed self (some c) w ≡ fault)
unfolding block_cache block_cache_compressed
block_cache_fault self c rep w live here = (ground arith, ground arith)
