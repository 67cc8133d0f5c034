-- ===== src/Db/Snapshots.antt =====
-- Snapshots: `get_snapshot` and `release_snapshot` of src/db.rs, src/snapshot.rs, and the glue of
-- rocks-sys/rocks/db.cc.
use rust_rocks.Common.{ℕ, ◌+◌, ◌≡◌, Option, none, some, ◌==◌, if◌then◌else◌, arith}
use rust_rocks.Ffi.{
  Ptr, null, done, panic, fault, M, pure, ◌>>=◌, ◌>>◌, alloc, load, free, IsHeap, SameCells, update,
}
use rust_rocks.Ffi.Object.{Object, snapshot}
use rust_rocks.Engine.{Engine}
use rust_rocks.Error.{Native}

pub record Snapshot : Type 0 where
  pub raw : Ptr

pub record ManagedSnapshot : Type 0 where
  pub held : Snapshot

module _ (E : Engine) where
  abbrev pub take_snapshot : M (Native E) (Option E.Snap)
  take_snapshot w = let (s, d) = E.get_snapshot w.state in done s (record w { state = d })

  abbrev pub release_in_engine : Option E.Snap → M (Native E) (Unit {0})
  release_in_engine s w = done tt (record w { state = E.release_snapshot s w.state })

  abbrev pub expect_snapshot : Object E.Rep E.Cf E.Snap E.Batch → M (Native E) (Option E.Snap)
  expect_snapshot (snapshot s) w = done s w
  expect_snapshot _ w = fault

  unfoldable pub rocks_db_get_snapshot : M (Native E) Ptr
  rocks_db_get_snapshot = do s ← take_snapshot; alloc (snapshot s)

  unfoldable pub rocks_db_release_snapshot : Ptr → M (Native E) (Unit {0})
  rocks_db_release_snapshot p = do o ← load p; s ← expect_snapshot o; release_in_engine s; free p

  -- A `Snapshot*` is dereferenced here, so a null one is a fault.
  abbrev pub sequence_of : Option E.Snap → M (Native E) ℕ
  sequence_of none w = fault
  sequence_of (some s) w = done (E.snapshot_sequence s) w

  unfoldable pub rocks_snapshot_get_sequence_number : Ptr → M (Native E) ℕ
  rocks_snapshot_get_sequence_number p = do o ← load p; s ← expect_snapshot o; sequence_of s

  unfoldable pub get_snapshot : M (Native E) (Option Snapshot)
  unfolding rocks_db_get_snapshot
  get_snapshot = do
    ptr ← rocks_db_get_snapshot
    pure (if ptr == null then none else some (record { raw = ptr }))

  unfoldable pub release_snapshot : Snapshot → M (Native E) (Unit {0})
  unfolding rocks_db_release_snapshot
  release_snapshot s = rocks_db_release_snapshot s.raw

  unfoldable pub get_sequence_number : Snapshot → M (Native E) ℕ
  unfolding rocks_snapshot_get_sequence_number
  get_sequence_number s = rocks_snapshot_get_sequence_number s.raw

  -- `expect("should get snapshot")`
  abbrev pub expect_some : Option Snapshot → M (Native E) Snapshot
  expect_some none w = panic w
  expect_some (some s) w = done s w

  -- `ManagedSnapshot::new`
  unfoldable pub new : M (Native E) ManagedSnapshot
  unfolding get_snapshot
  new = do o ← get_snapshot; snap ← expect_some o; pure (record { held = snap })

  -- `Drop for ManagedSnapshot`
  unfoldable pub drop_managed : ManagedSnapshot → M (Native E) (Unit {0})
  unfolding rocks_db_release_snapshot
  drop_managed m = rocks_db_release_snapshot m.held.raw

  -- Some caller's use of a managed snapshot: the sequence number is read, then it is dropped.
  abbrev pub managed : M (Native E) ℕ
  managed = do m ← new; n ← get_sequence_number m.held; drop_managed m; pure n

  abbrev pub after_managed : Native E → Native E
  after_managed w = record {
    heap = record {
      next = w.heap.next + 1;
      cell =
          update (update w.heap.cell w.heap.next (some (snapshot (E.get_snapshot w.state).0)))
            w.heap.next none;
    };
    state = E.release_snapshot (E.get_snapshot w.state).0 (E.get_snapshot w.state).1;
  }

module _ (E : Engine) (w : Native E) (is : IsHeap w.heap) where
  -- From a heap that meets `IsHeap`, a managed snapshot of a database that gives snapshots has the
  -- engine's sequence number, and its drop releases the snapshot in the engine and leaves no
  -- native object behind.
  pub drop_managed-new :
      (s : E.Snap)
      → (E.get_snapshot w.state).0 ≡ some s
      → (managed E w ≡ done (E.snapshot_sequence s) (after_managed E w))
        × SameCells w.heap (after_managed E w).heap
        × ((after_managed E w).state ≡ E.release_snapshot (some s) (E.get_snapshot w.state).1)
  unfolding new get_sequence_number drop_managed
  drop_managed-new s h = (ground (arith, is.positive, h), λ p. ground (arith, is.unused p), rw h)

  -- From a heap that meets `IsHeap`, where the engine gives no snapshot, `get_snapshot` returns an
  -- object around a null pointer instead of `None`, and asking it for its sequence number is a
  -- fault.
  pub get_snapshot-null :
      (E.get_snapshot w.state).0 ≡ none
      → ((s : Snapshot) × (v : Native E) × (get_snapshot E w ≡ done (some s) v)
          × (get_sequence_number E s v ≡ fault))
  unfolding get_snapshot get_sequence_number
  get_snapshot-null h = (
    record { raw = w.heap.next },
    record {
      heap = record {
        next = w.heap.next + 1;
        cell = update w.heap.cell w.heap.next (some (snapshot none));
      };
      state = (E.get_snapshot w.state).1;
    },
    ground (arith, is.positive, h),
    ground arith,
  )
