-- ===== src/Tests/Errors.antt =====
-- Tests of Error.
use rust_rocks.Common.{ℕ, zero, suc, ◌≡◌, refl, ◌≤◌, none, some, arith}
use rust_rocks.Ffi.{IsHeap, fault, ◌>>=◌, ◌>>◌}
use rust_rocks.Error.{Code, SubCode, Status, drop_status, clone}
use rust_rocks.Error.Codes.{code_to_int, sub_code_to_int}
use rust_rocks.Error.Ownership.{Inspected, report, inspect, inspect-report, drop-clone-fault}
use rust_rocks.Tests.Toy.{toy, toy_cells, toy_world}

toy_unused : (p : ℕ) → 2 ≤ p → toy_cells p ≡ none
toy_unused zero h = absurd (omega arith)
toy_unused (suc zero) h = absurd (omega arith)
toy_unused (suc (suc p)) h = refl

pub toy_world-IsHeap : IsHeap toy_world.heap
toy_world-IsHeap = record { positive = omega arith; unused = toy_unused }

inspect-report_example :
    Inspected toy toy_world
      (some (Code.busy, SubCode.deadlock))
      ((report toy (11, 5) >>= inspect toy) toy_world)
inspect-report_example =
    inspect-report toy toy_world (11, 5) Code.busy SubCode.deadlock toy_world-IsHeap
      (unfold code_to_int in refl) (unfold sub_code_to_int in refl)

abbrev some_status : Status
some_status = record { raw = 1 }

drop-clone-fault_example :
    (drop_status toy some_status >> drop_status toy (clone some_status)) toy_world ≡ fault
drop-clone-fault_example = drop-clone-fault toy toy_world some_status (omega arith)
