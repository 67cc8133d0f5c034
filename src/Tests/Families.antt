-- ===== src/Tests/Families.antt =====
-- Tests of Db/Family, Db/Read and Db/Snapshots.
use rust_rocks.Common.{◌≡◌, refl, true, none, some, [], ◌∷◌}
use rust_rocks.Ffi.{done, fault, ◌>>=◌, SameCells}
use rust_rocks.Engine.{Call}
use rust_rocks.Error.{Native, Code}
use rust_rocks.Error.Codes.{code_to_int}
use rust_rocks.Db.Ranges.{Range}
use rust_rocks.Db.Requests.{outcome}
use rust_rocks.Db.Family.{no_nul, ColumnFamily}
use rust_rocks.Db.Family.Lifecycle.{
  Settled, lifecycle, create_column_family-Settled, drop_family-double_free,
}
use rust_rocks.Db.Family.Operations.{Operation, operate, operate-family_call}
use rust_rocks.Db.Read.{get, get_cf, key_may_exist, key_may_get, key_may_exist_cf, key_may_get_cf}
use rust_rocks.Db.Read.Lookup.{Answer, Answered, look, lookup-Answered}
use rust_rocks.Db.Read.Probe.{may_get-probe_of}
use rust_rocks.Db.Snapshots.{
  Snapshot, managed, after_managed, drop_managed-new, get_snapshot, get_sequence_number,
  get_snapshot-null,
}
use rust_rocks.Tests.Toy.{toy, toy_world}
use rust_rocks.Tests.Errors.{toy_world-IsHeap}

create_column_family-Settled_example :
    Settled toy toy_world
      (Call.destroy_column_family_handle 1 ∷ [])
      (lifecycle toy 0 (b'n' ∷ []) toy_world)
create_column_family-Settled_example =
    create_column_family-Settled toy 0 (b'n' ∷ []) toy_world toy_world-IsHeap
      (unfold no_nul in refl) (λ good. refl)

drop_family-double_free_example : lifecycle toy 0 [] toy_world ≡ fault
drop_family-double_free_example =
    drop_family-double_free toy 0 [] toy_world toy_world-IsHeap (unfold no_nul in refl) refl refl

abbrev toy_family : ColumnFamily
toy_family = record { handle = record { raw = 1 }; owned = true }

operate-family_call_example :
    operate toy toy_family (Operation.compact_range 0 (Range.range_from (b'a' ∷ []))) toy_world
    ≡ outcome toy (some (Call.compact_range_cf 0 3 (some (b'a' ∷ [])) none)) toy_world
operate-family_call_example =
    operate-family_call toy toy_world toy_family
      (Operation.compact_range 0 (Range.range_from (b'a' ∷ []))) toy_world-IsHeap

lookup-Answered_example :
    Answered toy toy_world
      (Answer.found (b'k' ∷ []))
      ((get toy 0 (b'k' ∷ []) >>= look toy) toy_world)
    × Answered toy toy_world
        (Answer.found (b'k' ∷ []))
        ((get_cf toy 0 1 (b'k' ∷ []) >>= look toy) toy_world)
lookup-Answered_example =
    lookup-Answered toy toy_world toy_world-IsHeap 0 (b'k' ∷ []) 1 3 Code.ok Code.ok refl
      (unfold code_to_int in refl) (unfold code_to_int in refl)

may_get-probe_of_example :
    (key_may_exist toy 0 (b'k' ∷ []) toy_world ≡ done true toy_world)
    × (key_may_get toy 0 (b'k' ∷ []) toy_world ≡ done (true, some (b'k' ∷ [])) toy_world)
    × (key_may_exist_cf toy 0 1 (b'k' ∷ []) toy_world ≡ done true toy_world)
    × (key_may_get_cf toy 0 1 (b'k' ∷ []) toy_world ≡ done (true, some (b'k' ∷ [])) toy_world)
may_get-probe_of_example = may_get-probe_of toy toy_world 0 (b'k' ∷ []) 1 3 refl

drop_managed-new_example :
    (managed toy toy_world ≡ done 5 (after_managed toy toy_world))
    × SameCells toy_world.heap (after_managed toy toy_world).heap
    × ((after_managed toy toy_world).state ≡ [])
drop_managed-new_example = drop_managed-new toy toy_world toy_world-IsHeap 5 refl

-- a world in which the engine gives no snapshot
abbrev busy_world : Native toy
busy_world = record toy_world { state = Call.sync_wal ∷ [] }

get_snapshot-null_example :
    (s : Snapshot) × (v : Native toy) × (get_snapshot toy busy_world ≡ done (some s) v)
    × (get_sequence_number toy s v ≡ fault)
get_snapshot-null_example = get_snapshot-null toy busy_world toy_world-IsHeap refl
