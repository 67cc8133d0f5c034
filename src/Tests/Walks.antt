-- ===== src/Tests/Walks.antt =====
-- Tests of Tables.
use rust_rocks.Common.{ℕ, ◌≡◌, none, some, List, [], ◌∷◌, arith}
use rust_rocks.Ffi.{done, panic}
use rust_rocks.Tables.{
  TablePropertiesCollectionIter, iter, next, size_hint, versions, next_version, index, loop,
}
use rust_rocks.Tables.Walk.{both_loop-entries, size_hint-next, index-get_elem?}

abbrev tables : List ℕ
tables = 10 ∷ 20 ∷ 30 ∷ []

both_loop-entries_example :
    ((it : TablePropertiesCollectionIter ℕ) × (loop next 4 (iter tables) ≡ done (some tables) it)
      × (next it ≡ done none it))
    × (loop next_version 4 (versions tables)
        ≡ done (some tables) (record { vec = tables; idx = 3 }))
both_loop-entries_example = both_loop-entries tables 4 (omega arith)

size_hint-next_example :
    (it : TablePropertiesCollectionIter ℕ) × (it' : TablePropertiesCollectionIter ℕ) × (next
        (iter tables)
      ≡ done (some 10) it)
    × (loop next 3 it ≡ done (some (20 ∷ 30 ∷ [])) it')
    × (size_hint it ≡ 3)
size_hint-next_example = size_hint-next 10 (20 ∷ 30 ∷ []) 3 (omega arith)

index-get_elem?_example : index {W = ℕ} tables 3 0 ≡ panic 0
index-get_elem?_example = index-get_elem? tables 3 0
