-- ===== src/Error.antt =====
-- src/error.rs, with the part of rocks-sys/rocks that it calls: `SaveError` of ctypes.hpp and
-- status.cc. `rocksdb::Status` belongs to the parameter `Engine`.
pub mod Codes
pub mod Ownership
pub mod Message
use rust_rocks.Common.{
  ℕ, zero, suc, ◌≡◌, Bool, true, false, Option, List, [], ◌∷◌, Bytes, ◌==◌, if◌then◌else◌,
}
use rust_rocks.Ffi.{Ptr, null, World, Outcome, fault, M, pure, ◌>>=◌, ◌>>◌, alloc, load, free}
use rust_rocks.Ffi.Object.{Object, status}
use rust_rocks.Engine.{Engine}

-- What a C string that begins with these bytes reads as.
unfoldable pub c_string : Bytes → Bytes
c_string [] = []
c_string (b ∷ bs) = if b == 0 then [] else b ∷ c_string bs

pub data Code : Type 0 where
  ok not_found corruption not_supported invalid_argument io_error merge_in_progress incomplete :
      Code
  shutdown_in_progress timed_out aborted busy expired try_again : Code

pub data SubCode : Type 0 where
  none mutex_timeout lock_timeout lock_limit no_space deadlock stale_file memory_limit : SubCode

-- A Rust `Status` owns the native object that it points to.
pub record Status : Type 0 where
  pub raw : Ptr

-- `Result<A, Status>`
pub data Result (A : Type 0) : Type 0 where
  ok : A → Result A
  err : Status → Result A

-- `result.map(f)`
abbrev pub map_ok : {A B : Type 0} → (A → B) → Result A → Result B
map_ok f (Result.ok a) = Result.ok (f a)
map_ok f (Result.err s) = Result.err s

-- the derived `Clone for Status`
unfoldable pub clone : Status → Status
clone s = record { raw = s.raw }

-- the derived `PartialEq for Status`
unfoldable pub eq : Status → Status → Bool
eq a b = a.raw == b.raw

-- The world that the calls of the crate run in.
abbrev pub Native : Engine → Type 0
Native E = World (Object E.Rep E.Cf E.Snap E.Batch) E.Db

module _ (E : Engine) where
  -- What is read through a `rocks_status_t*`.
  abbrev pub expect_status : Object E.Rep E.Cf E.Snap E.Batch → M (Native E) E.Rep
  expect_status (status r) w = Outcome.done r w
  expect_status _ w = fault

  unfoldable pub load_status : Ptr → M (Native E) E.Rep
  load_status p = load p >>= expect_status

  -- `SaveError`, with the pointer that it writes to `*status`
  unfoldable pub save_error : E.Rep → M (Native E) Ptr
  save_error s = if E.is_ok s then pure null else alloc (status s)

  unfoldable pub rocks_status_code : Ptr → M (Native E) ℕ
  unfolding load_status
  rocks_status_code p = load_status p >>= λ s. pure (E.code s)

  unfoldable pub rocks_status_subcode : Ptr → M (Native E) ℕ
  unfolding load_status
  rocks_status_subcode p = load_status p >>= λ s. pure (E.subcode s)

  unfoldable pub rocks_status_get_state : Ptr → M (Native E) (Option Bytes)
  unfolding load_status
  rocks_status_get_state p = load_status p >>= λ s. pure (E.get_state s)

  unfoldable pub rocks_status_create_with_code_and_msg : ℕ → Bytes → M (Native E) Ptr
  rocks_status_create_with_code_and_msg code msg = alloc (status (E.invalid_argument msg))

  -- `delete s`, which does nothing at null
  unfoldable pub rocks_status_destroy : Ptr → M (Native E) (Unit {0})
  rocks_status_destroy p = if p == null then pure tt else free p

  -- `Status::from_ll`, and `FromRaw::from_ll` of `Result<(), Status>`, whose body is the same
  unfoldable pub from_ll : Ptr → M (Native E) (Result (Unit {0}))
  unfolding rocks_status_code
  from_ll raw =
      if raw == null
      then pure (Result.ok tt)
      else rocks_status_code raw >>= λ c.
          pure (if c == 0 then Result.ok tt else Result.err (record { raw = raw }))

  -- `Drop for Status`
  unfoldable pub drop_status : Status → M (Native E) (Unit {0})
  unfolding rocks_status_destroy
  drop_status s = rocks_status_destroy s.raw

  -- The end of the life of a `Result<A, Status>` whose `A` owns nothing.
  unfoldable pub drop_result : {A : Type 0} → Result A → M (Native E) (Unit {0})
  unfolding drop_status
  drop_result (Result.ok a) = pure tt
  drop_result (Result.err s) = drop_status s
