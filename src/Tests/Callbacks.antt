-- ===== src/Tests/Callbacks.antt =====
-- Tests of Plugins.
use rust_rocks.Common.{ℕ, ◌≡◌, refl, true, false, none, some, [], ◌∷◌, Bytes, arith}
use rust_rocks.Ffi.{done, panic, fault, SameCells}
use rust_rocks.Error.{Native}
use rust_rocks.Plugins.Merge.{MergeFn, merge, merge-exact, merge-spare}
use rust_rocks.Plugins.FullMerge.{
  Slice, Action, Operator, MergeOperationOutput, empty_output, merge_result, full_merge_v2,
  full_merge_v2-merged,
}
use rust_rocks.Plugins.Filter.{
  Decision, FilterFn, rust_compaction_filter_call, read_decision, to_c,
  read_decision-rust_compaction_filter_call,
}
use rust_rocks.Plugins.Listener.{
  on_background_error, on_background_error-double_free, default_listener,
}
use rust_rocks.Tests.Toy.{toy, toy_world}
use rust_rocks.Tests.Errors.{toy_world-IsHeap}

-- Takes the new value in place of the old one, in a buffer of exactly its size, or of eight bytes;
-- and declines an empty key.
abbrev replace : MergeFn
replace [] old new = none
replace (k ∷ ks) old [] = some (record { capacity = 0; bytes = [] })
replace (k ∷ ks) old (b ∷ []) = some (record { capacity = 1; bytes = b ∷ [] })
replace (k ∷ ks) old (b ∷ c ∷ bs) = some (record { capacity = 8; bytes = b ∷ c ∷ [] })

merge-exact_example :
    (w' : Native toy) × (merge toy replace 1 (b'k' ∷ []) none (b'v' ∷ []) toy_world
      ≡ done (true, b'v' ∷ []) w')
    × SameCells toy_world.heap w'.heap
    × (w'.state ≡ toy_world.state)
merge-exact_example =
    merge-exact toy toy_world toy_world-IsHeap replace 1 (omega arith) (b'k' ∷ []) none (b'v' ∷ [])
      (b'v' ∷ []) refl

merge-spare_example : merge toy replace 1 (b'k' ∷ []) none (b'v' ∷ b'w' ∷ []) toy_world ≡ fault
merge-spare_example =
    merge-spare toy toy_world toy_world-IsHeap replace 1 (omega arith) (b'k' ∷ []) none
      (b'v' ∷ b'w' ∷ []) 8 b'v' (b'w' ∷ []) refl (omega arith)

-- Assigns a value, picks its own bytes, then the second operand, and fails.
abbrev picker : Operator
picker = record {
  actions =
      Action.assigns (b'a' ∷ [])
      ∷ Action.picks (Slice.local (b'c' ∷ []))
      ∷ Action.picks (Slice.operand 1)
      ∷ [];
  success = false;
}

full_merge_v2-merged_example :
    ((out : MergeOperationOutput) × (full_merge_v2 (some picker) empty_output ≡ done false out)
      × (merge_result ([] ∷ (b'b' ∷ []) ∷ []) out ≡ some (b'b' ∷ [])))
    × (full_merge_v2 none empty_output ≡ panic empty_output)
full_merge_v2-merged_example = full_merge_v2-merged ([] ∷ (b'b' ∷ []) ∷ []) picker

abbrev skipping : FilterFn
skipping level key value_type value = Decision.remove_and_skip_until value

read_decision-rust_compaction_filter_call_example :
    (a : ℕ × Bytes × Bytes) × (rust_compaction_filter_call {W = ℕ} skipping 1 2
        (b'k' ∷ [])
        0
        (b'z' ∷ [])
        []
        []
        0
      ≡ done a 0)
    × (read_decision a ≡ some (Decision.remove_and_skip_until (b'z' ∷ [])))
    × (a.0 ≡ to_c (Decision.remove_and_skip_until (b'z' ∷ [])))
read_decision-rust_compaction_filter_call_example =
    read_decision-rust_compaction_filter_call skipping 1 2 (b'k' ∷ []) 0 (b'z' ∷ []) [] [] 0
      (omega arith)

on_background_error-double_free_example :
    on_background_error toy (default_listener toy) (5, 0) toy_world ≡ fault
on_background_error-double_free_example =
    on_background_error-double_free toy toy_world toy_world-IsHeap (default_listener toy) (5, 0)
      refl
