-- ===== src/Tests/Openings.antt =====
-- Tests of Db/Opening, with an engine that opens every database with a name.
use rust_rocks.Common.{
  ℕ, suc, ◌≡◌, refl, true, none, some, List, [], ◌∷◌, Bytes, length, map, ap, arith, ◌==◌,
  if◌then◌else◌,
}
use rust_rocks.Ffi.{fault, ◌>>=◌, IsHeap}
use rust_rocks.Engine.{Engine, Call}
use rust_rocks.Error.{Native, drop_result}
use rust_rocks.Db.Family.Lifecycle.{Settled}
use rust_rocks.Db.Opening.{Opener, open_db, open_for_readonly, destroy_db, repair_db}
use rust_rocks.Db.Family.{no_nul}
use rust_rocks.Db.Opening.Columns.{ColumnFamilyDescriptor, open_with_column_families}
use rust_rocks.Db.Opening.Names.{list_column_families}
use rust_rocks.Db.Opening.Closed.{
  let_go, let_go_all, opened-Settled, open_with_column_families-use_after_free,
}
use rust_rocks.Db.Opening.Families.{let_go_families, open_with_column_families-Settled}
use rust_rocks.Db.Opening.Strings.{all_utf8}
use rust_rocks.Db.Opening.Listed.{Listed, list_column_families-Listed}
use rust_rocks.Tests.Toy.{toy, toy_world}
use rust_rocks.Tests.Errors.{toy_world-IsHeap}

-- The toy engine, but every call succeeds.
abbrev calm : Engine
calm = record toy { call = λ c d. ((0, 0), c ∷ d) }

abbrev answer : Bytes → ℕ × ℕ
answer name = if length name == 0 then (4, 0) else (0, 0)

length-families :
    {A : Type 0} (cs : List (Bytes × A)) → length (map (λ c. length c.0) cs) ≡ length cs
length-families [] = refl
length-families (c ∷ cs) = ap suc (length-families cs)

abbrev opener : Opener calm
opener = record {
  Options = ℕ;
  open_db = λ o name d. (answer name, 8, d);
  open_for_read_only = λ o name f d. (answer name, 8, d);
  open_families = λ o name cs d. (answer name, 8, map (λ c. length c.0) cs, d);
  cf_options = λ o. o;
  list_column_families = λ o name d. (answer name, (b'd' ∷ []) ∷ (b'e' ∷ 0 ∷ b'f' ∷ []) ∷ []);
  destroy_db = λ name o d. (answer name, []);
  repair_db = λ name o d. (answer name, d);
  close = λ rep d. Call.sync_wal ∷ d;
  length-open_families = λ o name cs d ok. length-families cs;
}

abbrev calm_world : Native calm
calm_world = toy_world

calm_world-IsHeap : IsHeap calm_world.heap
calm_world-IsHeap = toy_world-IsHeap

abbrev families : List (ColumnFamilyDescriptor ℕ)
families =
    record { name = b'd' ∷ []; options = none }
    ∷ record { name = b'e' ∷ b'f' ∷ []; options = some 5 }
    ∷ []

opened-Settled_example :
    Settled calm calm_world
      (Call.sync_wal ∷ [])
      ((open_db calm opener 0 (b'n' ∷ []) >>= let_go calm opener) calm_world)
    × Settled calm calm_world
        (Call.sync_wal ∷ [])
        ((open_for_readonly calm opener 0 (b'n' ∷ []) true >>= let_go calm opener) calm_world)
    × Settled calm calm_world []
        ((destroy_db calm opener 0 (b'n' ∷ []) >>= drop_result calm) calm_world)
    × Settled calm calm_world []
        ((repair_db calm opener 0 (b'n' ∷ []) >>= drop_result calm) calm_world)
opened-Settled_example =
    opened-Settled calm opener calm_world calm_world-IsHeap 0 (b'n' ∷ []) true
      (unfold no_nul in refl)

open_with_column_families-Settled_example :
    Settled calm calm_world
      (Call.sync_wal
        ∷ Call.destroy_column_family_handle 2
        ∷ Call.destroy_column_family_handle 1
        ∷ [])
      ((open_with_column_families calm opener 0 (b'n' ∷ []) families
          >>= let_go_families calm opener)
        calm_world)
open_with_column_families-Settled_example =
    open_with_column_families-Settled calm opener calm_world calm_world-IsHeap 0 (b'n' ∷ [])
      families (unfold no_nul in refl) (omega arith) (λ c d. refl)

open_with_column_families-use_after_free_example :
    (open_with_column_families calm opener 0 (b'n' ∷ []) families >>= let_go_all calm opener)
      calm_world
    ≡ fault
open_with_column_families-use_after_free_example =
    open_with_column_families-use_after_free calm opener calm_world calm_world-IsHeap 0 (b'n' ∷ [])
      (record { name = b'd' ∷ []; options = none })
      (record { name = b'e' ∷ b'f' ∷ []; options = some 5 } ∷ []) (unfold no_nul in refl)
      (omega arith) refl

list_column_families-Listed_example :
    Listed calm calm_world
      ((b'd' ∷ []) ∷ (b'e' ∷ 0 ∷ b'f' ∷ []) ∷ [])
      (list_column_families calm opener 0 (b'n' ∷ []) calm_world)
list_column_families-Listed_example =
    list_column_families-Listed calm opener calm_world calm_world-IsHeap 0 (b'n' ∷ [])
      (unfold no_nul in refl) refl (unfold all_utf8 in refl)
