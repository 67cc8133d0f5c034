-- ===== src/Options/Read/Bounds.antt =====
-- src/options.rs: `ReadOptions::new`, and the setters that keep a pointer, `snapshot` and
-- `iterate_upper_bound`, with their glue in rocks-sys/rocks/options.cc.
use rust_rocks.Common.{
  ℕ, ◌≡◌, ◌≢◌, Bool, Option, none, some, [], Bytes, to_u8, of_u8, length, take, take-length, ◌==◌,
  if◌then◌else◌, arith,
}
use rust_rocks.Ffi.{Ptr, null, done, fault, M, pure, ◌>>=◌, ◌>>◌, alloc, free}
use rust_rocks.Options.Struct.{text, pointer, Settings, read_struct, set_member, put_member}
use rust_rocks.Options.Fields.{ReadField}
use rust_rocks.Options.Objects.{OptionsWorld, read_kind, readoptions, holder, read_holder}
use rust_rocks.Options.Assign.{written}
use rust_rocks.Options.Read.{ReadOptions}

-- The argument is what the constructor `ReadOptions(bool, bool)` of RocksDB makes.
unfoldable pub rocks_readoptions_new :
    (Bool → Bool → Settings ReadField) → ℕ → ℕ → M OptionsWorld Ptr
rocks_readoptions_new make cksum cache = alloc (readoptions (make (of_u8 cksum) (of_u8 cache)))

unfoldable pub new : (Bool → Bool → Settings ReadField) → Bool → Bool → M OptionsWorld ReadOptions
unfolding rocks_readoptions_new
new make cksum cache = do
  p ← rocks_readoptions_new make (to_u8 cksum) (to_u8 cache)
  pure (record { raw = p })

-- A value of a type that is `AsRef<Snapshot>`: the raw pointer of its snapshot, and its drop.
pub record AsSnapshot : Type 0 where
  pub raw : Ptr
  pub drop : M OptionsWorld (Unit {0})

-- `&Snapshot`, which has nothing to drop, and `ManagedSnapshot`, whose drop releases the object
-- in rocks-sys/rocks/db.cc.
abbrev pub borrowed : Ptr → AsSnapshot
borrowed p = record { raw = p; drop = pure tt }

abbrev pub managed : Ptr → AsSnapshot
managed p = record { raw = p; drop = free p }

unfoldable pub rocks_readoptions_set_snapshot : Ptr → Ptr → M OptionsWorld (Unit {0})
unfolding read_holder
rocks_readoptions_set_snapshot opt p =
    if p == null
    then set_member read_kind opt ReadField.snapshot (pointer none)
    else (do rep ← read_holder p; set_member read_kind opt ReadField.snapshot (pointer rep))

-- `val.map(|v| v.as_ref().raw())` takes the value, so it is dropped before its pointer is used.
unfoldable pub snapshot : ReadOptions → Option AsSnapshot → M OptionsWorld ReadOptions
unfolding rocks_readoptions_set_snapshot
snapshot self none = do rocks_readoptions_set_snapshot self.raw null; pure self
snapshot self (some v) = do v.drop; rocks_readoptions_set_snapshot self.raw v.raw; pure self

-- The slice stands in the same native object, which `iterate_upper_bound` points to.
unfoldable pub rocks_readoptions_set_iterate_upper_bound :
    Ptr → Option Bytes → ℕ → M OptionsWorld (Unit {0})
rocks_readoptions_set_iterate_upper_bound opt none keylen = do
  set_member read_kind opt ReadField.upper_bound (text [])
  set_member read_kind opt ReadField.iterate_upper_bound (pointer none)
rocks_readoptions_set_iterate_upper_bound opt (some key) keylen = do
  set_member read_kind opt ReadField.upper_bound (text (take keylen key))
  set_member read_kind opt ReadField.iterate_upper_bound (pointer (some opt))

-- The pointer of a `&[u8]` is never null, not even that of an empty one.
unfoldable pub iterate_upper_bound : ReadOptions → Bytes → M OptionsWorld ReadOptions
unfolding rocks_readoptions_set_iterate_upper_bound
iterate_upper_bound self val = do
  rocks_readoptions_set_iterate_upper_bound self.raw (some val) (length val)
  pure self

abbrev pub with_bound : Settings ReadField → Ptr → Bytes → Settings ReadField
with_bound s p val =
    put_member read_kind (put_member read_kind s ReadField.upper_bound (text val))
      ReadField.iterate_upper_bound (pointer (some p))

-- Read options take a borrowed snapshot as it is, and none clears the one that was set. A managed
-- snapshot that is handed over is a use after free, since it is released before it is read. The
-- upper bound is the whole slice that was set, empty or not, and the options point to the copy of
-- it in their own native object. The object of the snapshot is at an address that is not null.
pub snapshot-outcome :
    (self : ReadOptions) (s : Settings ReadField) (p : Ptr) (rep : Option ℕ) (val : Bytes)
    (w : OptionsWorld)
    → w.heap.cell self.raw ≡ some (readoptions s)
    → w.heap.cell p ≡ some (holder rep)
    → p ≢ null
    → (snapshot self (some (borrowed p)) w
        ≡ done self (
            written read_kind w self.raw (put_member read_kind s ReadField.snapshot (pointer rep))))
      × (snapshot self none w
          ≡ done self (
              written read_kind w self.raw
                (put_member read_kind s ReadField.snapshot (pointer none))))
      × (snapshot self (some (managed p)) w ≡ fault)
      × (w' : OptionsWorld) × (iterate_upper_bound self val w ≡ done self w')
      × (w'.heap.cell self.raw ≡ some (readoptions (with_bound s self.raw val)))
      × ((q : Ptr) → q ≢ self.raw → w'.heap.cell q ≡ w.heap.cell q)
unfolding snapshot iterate_upper_bound set_member read_struct
snapshot-outcome self s p rep val w opts here live =
    let bound : Settings ReadField = put_member read_kind s ReadField.upper_bound (text val) in
    (
      ground arith,
      ground arith,
      ground arith,
      written read_kind (written read_kind w self.raw bound) self.raw (with_bound s self.raw val),
      rw (take-length val) (ground arith),
      ground arith,
      λ q ne. ground arith,
    )
