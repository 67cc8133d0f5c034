-- ===== src/Tests/MultiGets.antt =====
-- Tests of Db/MultiGet.
use rust_rocks.Common.{true, ◌≡◌, refl, List, [], ◌∷◌, Bytes, length}
use rust_rocks.Ffi.{◌>>=◌}
use rust_rocks.Error.{Code}
use rust_rocks.Error.Codes.{code_of_int}
use rust_rocks.Db.Read.Lookup.{Answer}
use rust_rocks.Db.Family.{ColumnFamily}
use rust_rocks.Db.MultiGet.{multi_get, multi_get_cf, family_multi_get}
use rust_rocks.Db.MultiGet.Slots.{look_all}
use rust_rocks.Db.MultiGet.Answers.{
  AllAnswered, multi_get-AllAnswered, families_multi_get-AllAnswered,
}
use rust_rocks.Tests.Toy.{toy, toy_world}
use rust_rocks.Tests.Errors.{toy_world-IsHeap}

abbrev keys : List Bytes
keys = (b'a' ∷ []) ∷ [] ∷ (b'b' ∷ []) ∷ []

-- The empty key is not found.
abbrev expected_answers : List Answer
expected_answers =
    Answer.found (b'a' ∷ []) ∷ Answer.failed Code.not_found ∷ Answer.found (b'b' ∷ []) ∷ []

multi_get-AllAnswered_example :
    AllAnswered toy toy_world expected_answers ((multi_get toy 0 keys >>= look_all toy) toy_world)
    × (length expected_answers ≡ 3)
multi_get-AllAnswered_example =
    multi_get-AllAnswered toy toy_world toy_world-IsHeap 0 keys expected_answers
      (unfold code_of_int in refl)

abbrev family_at_one : ColumnFamily
family_at_one = record { handle = record { raw = 1 }; owned = true }

families_multi_get-AllAnswered_example :
    AllAnswered toy toy_world expected_answers
      ((multi_get_cf toy 0 (1 ∷ 1 ∷ 1 ∷ 9 ∷ []) keys >>= look_all toy) toy_world)
    × AllAnswered toy toy_world expected_answers
        ((family_multi_get toy family_at_one 0 keys >>= look_all toy) toy_world)
families_multi_get-AllAnswered_example =
    families_multi_get-AllAnswered toy toy_world toy_world-IsHeap 0 (1 ∷ 1 ∷ 1 ∷ 9 ∷ [])
      family_at_one 3 keys ((3, b'a' ∷ []) ∷ (3, []) ∷ (3, b'b' ∷ []) ∷ []) expected_answers
      expected_answers refl refl (unfold code_of_int in refl) (unfold code_of_int in refl)
