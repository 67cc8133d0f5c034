-- ===== src/Ffi/Object.antt =====
-- The native objects that the crate holds raw pointers to (the structs of
-- rocks-sys/rocks/ctypes.hpp), over the types of what they wrap.
use rust_rocks.Common.{ℕ, Option, List, Bytes}

pub data Object (Rep Cf Snap Batch : Type 0) : Type 0 where
  -- rocks_status_t
  status : Rep → Object Rep Cf Snap Batch
  -- rocks_column_family_handle_t
  cf_handle : Cf → Object Rep Cf Snap Batch
  -- rocks_snapshot_t, with a `Snapshot*` that may be null
  snapshot : Option Snap → Object Rep Cf Snap Batch
  -- rocks_pinnable_slice_t
  pinnable : Bytes → Object Rep Cf Snap Batch
  -- rocks_writebatch_t
  batch : Batch → Object Rep Cf Snap Batch
  -- the buffer of a Rust `Vec<u8>`, with its capacity
  buffer : ℕ → Bytes → Object Rep Cf Snap Batch
  -- a `rocks_*_t` that wraps a Rust trait object, or the `Box` of the trait object itself
  boxed : ℕ → Object Rep Cf Snap Batch
  -- rocks_db_t, with its `DB*`
  database : ℕ → Object Rep Cf Snap Batch
  -- the `Box<DBRef>` of a `DB`, with the pointer to its rocks_db_t
  db_ref : ℕ → Object Rep Cf Snap Batch
  -- the array of a `char**`
  strings : List ℕ → Object Rep Cf Snap Batch
  -- a C string that `strdup` made, up to its NUL
  chars : Bytes → Object Rep Cf Snap Batch
