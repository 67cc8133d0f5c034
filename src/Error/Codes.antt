-- ===== src/Error/Codes.antt =====
-- The enums `Code` and `SubCode` of src/error.rs, and the integers that cross the boundary:
-- `mem::transmute` of an integer that is no discriminant is undefined, here a fault.
use rust_rocks.Common.{ℕ, ◌≡◌, refl, Bool, Option, some, none, ◌==◌, if◌then◌else◌}
use rust_rocks.Ffi.{Outcome, fault, M, pure, ◌>>=◌}
use rust_rocks.Engine.{Engine}
use rust_rocks.Error.{Code, SubCode, Status, Native, rocks_status_code, rocks_status_subcode}

-- the discriminants of `Code`
unfoldable pub code_to_int : Code → ℕ
code_to_int Code.ok = 0
code_to_int Code.not_found = 1
code_to_int Code.corruption = 2
code_to_int Code.not_supported = 3
code_to_int Code.invalid_argument = 4
code_to_int Code.io_error = 5
code_to_int Code.merge_in_progress = 6
code_to_int Code.incomplete = 7
code_to_int Code.shutdown_in_progress = 8
code_to_int Code.timed_out = 9
code_to_int Code.aborted = 10
code_to_int Code.busy = 11
code_to_int Code.expired = 12
code_to_int Code.try_again = 13

unfoldable pub code_of_int : ℕ → Option Code
code_of_int n =
    if n == 0
    then some Code.ok
    else if n == 1
    then some Code.not_found
    else if n == 2
    then some Code.corruption
    else if n == 3
    then some Code.not_supported
    else if n == 4
    then some Code.invalid_argument
    else if n == 5
    then some Code.io_error
    else if n == 6
    then some Code.merge_in_progress
    else if n == 7
    then some Code.incomplete
    else if n == 8
    then some Code.shutdown_in_progress
    else if n == 9
    then some Code.timed_out
    else if n == 10
    then some Code.aborted
    else if n == 11
    then some Code.busy
    else if n == 12
    then some Code.expired
    else if n == 13
    then some Code.try_again
    else none

-- the discriminants of `SubCode`
unfoldable pub sub_code_to_int : SubCode → ℕ
sub_code_to_int SubCode.none = 0
sub_code_to_int SubCode.mutex_timeout = 1
sub_code_to_int SubCode.lock_timeout = 2
sub_code_to_int SubCode.lock_limit = 3
sub_code_to_int SubCode.no_space = 4
sub_code_to_int SubCode.deadlock = 5
sub_code_to_int SubCode.stale_file = 6
sub_code_to_int SubCode.memory_limit = 7

unfoldable pub sub_code_of_int : ℕ → Option SubCode
sub_code_of_int n =
    if n == 0
    then some SubCode.none
    else if n == 1
    then some SubCode.mutex_timeout
    else if n == 2
    then some SubCode.lock_timeout
    else if n == 3
    then some SubCode.lock_limit
    else if n == 4
    then some SubCode.no_space
    else if n == 5
    then some SubCode.deadlock
    else if n == 6
    then some SubCode.stale_file
    else if n == 7
    then some SubCode.memory_limit
    else none

pub code_of_int-code_to_int : (c : Code) → code_of_int (code_to_int c) ≡ some c
unfolding code_of_int code_to_int
code_of_int-code_to_int Code.ok = refl
code_of_int-code_to_int _ = refl

pub sub_code_of_int-sub_code_to_int : (c : SubCode) → sub_code_of_int (sub_code_to_int c) ≡ some c
unfolding sub_code_of_int sub_code_to_int
sub_code_of_int-sub_code_to_int SubCode.none = refl
sub_code_of_int-sub_code_to_int _ = refl

abbrev pub transmute : {W A : Type 0} → Option A → M W A
transmute none w = fault
transmute (some a) w = Outcome.done a w

module _ (E : Engine) where
  -- `Status::code`
  unfoldable pub status_code : Status → M (Native E) Code
  unfolding rocks_status_code code_of_int
  status_code s = rocks_status_code E s.raw >>= λ c. transmute (code_of_int c)

  -- `Status::subcode`
  unfoldable pub status_subcode : Status → M (Native E) SubCode
  unfolding rocks_status_subcode sub_code_of_int
  status_subcode s = rocks_status_subcode E s.raw >>= λ c. transmute (sub_code_of_int c)

  -- `Status::is_not_found`
  unfoldable pub is_not_found : Status → M (Native E) Bool
  unfolding status_code code_to_int
  is_not_found s = status_code s >>= λ c. pure (code_to_int c == code_to_int Code.not_found)
