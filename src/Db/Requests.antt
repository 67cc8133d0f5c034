-- ===== src/Db/Requests.antt =====
-- A session with an open database: the operations of src/db.rs that report only a status, asked for
-- one after another, and what the engine is asked for in their place.
pub mod Refinement
pub mod Session
use rust_rocks.Common.{
  ℕ, zero, suc, ◌+◌, ◌≡◌, refl, Bool, false, true, Option, none, some, List, [], ◌∷◌, Bytes, ◌==◌,
  if◌then◌else◌, arith, take, length, Bool-cases, inl, inr,
}
use rust_rocks.Ffi.{
  Ptr, Outcome, done, fault, M, pure, ◌>>=◌, ◌>>◌, World, Heap, load, alloc, update, IsHeap,
  and_then,
}
use rust_rocks.Ffi.Object.{Object, cf_handle, batch}
use rust_rocks.Engine.{Engine, Call}
use rust_rocks.Error.{Result, Native, from_ll, drop_result}
use rust_rocks.Error.Ownership.{report, report_lem, report_of}
use rust_rocks.Db
use rust_rocks.Db.Glue.{DbCall, load_cf, load_cfs, call_and_save}
use rust_rocks.Db.Ranges.{Range, range, range_to, range_from, range_full, start_key, end_key}

-- What a client asks of a `DBRef`. A column family is named by the pointer of its handle.
pub data Request (E : Engine) : Type 0 where
  put : E.WriteOptions → Bytes → Bytes → Request E
  put_cf : E.WriteOptions → Ptr → Bytes → Bytes → Request E
  delete : E.WriteOptions → Bytes → Request E
  delete_cf : E.WriteOptions → Ptr → Bytes → Request E
  single_delete : E.WriteOptions → Bytes → Request E
  single_delete_cf : E.WriteOptions → Ptr → Bytes → Request E
  delete_range_cf : E.WriteOptions → Ptr → Bytes → Bytes → Request E
  merge : E.WriteOptions → Bytes → Bytes → Request E
  merge_cf : E.WriteOptions → Ptr → Bytes → Bytes → Request E
  -- a new `WriteBatch` of these updates is handed over
  write : E.WriteOptions → E.Batch → Request E
  drop_column_family : Ptr → Request E
  compact_range : E.RangeOptions → Range → Request E
  pause_background_work : Request E
  continue_background_work : Request E
  enable_auto_compaction : List Ptr → Request E
  flush : E.FlushOptions → Request E
  sync_wal : Request E
  disable_file_deletions : Request E
  enable_file_deletions : Bool → Request E
  delete_file : Bytes → Request E
  delete_files_in_range : Ptr → Bytes → Bytes → Request E

-- The lower and the upper bound of a range; `none` is open.
abbrev pub lower : Range → Option Bytes
lower (range b e) = some b
lower (range_to e) = none
lower (range_from b) = some b
lower range_full = none

abbrev pub upper : Range → Option Bytes
upper (range b e) = some e
upper (range_to e) = some e
upper (range_from b) = none
upper range_full = none

module _ (E : Engine) where
  unfoldable pub perform : Request E → M (Native E) (Result (Unit {0}))
  perform (put o k v) = Db.put E o k v
  perform (put_cf o cf k v) = Db.put_cf E o cf k v
  perform (delete o k) = Db.delete E o k
  perform (delete_cf o cf k) = Db.delete_cf E o cf k
  perform (single_delete o k) = Db.single_delete E o k
  perform (single_delete_cf o cf k) = Db.single_delete_cf E o cf k
  perform (delete_range_cf o cf b e) = Db.delete_range_cf E o cf b e
  perform (merge o k v) = Db.merge E o k v
  perform (merge_cf o cf k v) = Db.merge_cf E o cf k v
  perform (write o b) = do p ← alloc (batch b); Db.write E o (record { raw = p })
  perform (drop_column_family cf) = Db.drop_column_family E cf
  perform (compact_range o r) = Db.compact_range E o r
  perform pause_background_work = Db.pause_background_work E
  perform continue_background_work = Db.continue_background_work E
  perform (enable_auto_compaction cfs) = Db.enable_auto_compaction E cfs
  perform (flush o) = Db.flush E o
  perform sync_wal = Db.sync_wal E
  perform disable_file_deletions = Db.disable_file_deletions E
  perform (enable_file_deletions force) = Db.enable_file_deletions E force
  perform (delete_file name) = Db.delete_file E name
  perform (delete_files_in_range cf b e) = Db.delete_files_in_range E cf b e

  -- The column family that a pointer leads to.
  abbrev pub family_of : Option (Object E.Rep E.Cf E.Snap E.Batch) → Option E.Cf
  family_of (some (cf_handle c)) = some c
  family_of _ = none

  -- What lies at each address of the native heap.
  abbrev pub Cells : Type 0
  Cells = Ptr → Option (Object E.Rep E.Cf E.Snap E.Batch)

  abbrev pub family : Cells → Ptr → Option E.Cf
  family h p = family_of (h p)

  abbrev pub with_family : {A : Type 0} → Option A → (A → DbCall E) → Option (DbCall E)
  with_family none f = none
  with_family (some c) f = some (f c)

  abbrev pub cons_family : Option E.Cf → Option (List E.Cf) → Option (List E.Cf)
  cons_family (some c) (some cs) = some (c ∷ cs)
  cons_family _ _ = none

  abbrev pub families : Cells → List Ptr → Option (List E.Cf)
  families h [] = some []
  families h (p ∷ ps) = cons_family (family h p) (families h ps)

  -- What each request means to the database; none if it names a handle that is not there.
  abbrev pub meaning : Cells → Request E → Option (DbCall E)
  meaning h (put o k v) = some (Call.put o k v)
  meaning h (put_cf o cf k v) = with_family (family h cf) λ c. Call.put_cf o c k v
  meaning h (delete o k) = some (Call.delete o k)
  meaning h (delete_cf o cf k) = with_family (family h cf) λ c. Call.delete_cf o c k
  meaning h (single_delete o k) = some (Call.single_delete o k)
  meaning h (single_delete_cf o cf k) = with_family (family h cf) λ c. Call.single_delete_cf o c k
  meaning h (delete_range_cf o cf b e) = with_family (family h cf) λ c. Call.delete_range_cf o c b e
  meaning h (merge o k v) = some (Call.merge o k v)
  meaning h (merge_cf o cf k v) = with_family (family h cf) λ c. Call.merge_cf o c k v
  meaning h (write o b) = some (Call.write o b)
  meaning h (drop_column_family cf) = with_family (family h cf) λ c. Call.drop_column_family c
  meaning h (compact_range o r) = some (Call.compact_range o (lower r) (upper r))
  meaning h pause_background_work = some Call.pause_background_work
  meaning h continue_background_work = some Call.continue_background_work
  meaning h (enable_auto_compaction cfs) =
      with_family (families h cfs) λ cs. Call.enable_auto_compaction cs
  meaning h (flush o) = some (Call.flush o)
  meaning h sync_wal = some Call.sync_wal
  meaning h disable_file_deletions = some Call.disable_file_deletions
  meaning h (enable_file_deletions force) = some (Call.enable_file_deletions force)
  meaning h (delete_file name) = some (Call.delete_file name)
  meaning h (delete_files_in_range cf b e) =
      with_family (family h cf) λ c. Call.delete_files_in_range c b e

  -- The native heap after a batch that was handed over is gone.
  abbrev pub handed_over : Request E → Native E → Native E
  handed_over (write o b) w = record w {
    heap = record {
      next = w.heap.next + 1;
      cell = update (update w.heap.cell w.heap.next (some (batch b))) w.heap.next none;
    };
  }
  handed_over r w = w

  -- The world in which the engine has made the call.
  abbrev pub after_call : DbCall E → Native E → Native E
  after_call c w = record w { state = (E.call c w.state).1 }

  abbrev pub status_after : DbCall E → Native E → E.Rep
  status_after c w = (E.call c w.state).0

  abbrev pub outcome : Option (DbCall E) → Native E → Outcome (Native E) (Result (Unit {0}))
  outcome none w = fault
  outcome (some c) w = report_of E (status_after c w) (after_call c w)
