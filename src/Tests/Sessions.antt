-- ===== src/Tests/Sessions.antt =====
-- Tests of Db and Db/Requests.
use rust_rocks.Common.{List, [], ◌∷◌}
use rust_rocks.Db.Ranges.{Range}
use rust_rocks.Db.Requests.{Request}
use rust_rocks.Db.Requests.Session.{Ran, expected, session, session-expected}
use rust_rocks.Tests.Toy.{toy, toy_cells, toy_world}
use rust_rocks.Tests.Errors.{toy_world-IsHeap}

abbrev requests : List (Request toy)
requests =
    Request.put 0 (b'k' ∷ []) (b'v' ∷ [])
    ∷ Request.delete_file []
    ∷ Request.put_cf 0 1 (b'k' ∷ []) (b'v' ∷ [])
    ∷ Request.compact_range 0 (Range.range_to (b'z' ∷ []))
    ∷ []

session-expected_example :
    Ran toy toy_world (expected toy toy_cells requests []) (session toy requests toy_world)
session-expected_example = session-expected toy requests toy_world toy_world-IsHeap
